-- ===== src/Docker/Client/Delivered.antt =====
-- A listing from the wire to the containers.
use chaos_forger.Double.{Double}
