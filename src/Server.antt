-- ===== src/Server.antt =====
-- btdt-server: the HTTP server.
pub mod Api
pub mod Cleanup
mod Tests
