-- ===== src/Http.antt =====
-- include/forger/http_socket.hpp and src/http_socket.cpp.
pub mod Parser
pub mod Client
pub mod UnixSocket
