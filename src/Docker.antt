-- ===== src/Docker.antt =====
-- include/forger/docker_api.hpp and src/docker_api.cpp.
pub mod Paths
pub mod Api
pub mod Client
