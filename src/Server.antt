-- ===== src/Server.antt =====
-- internal/server/server.go
pub mod Limiter
pub mod Validate
pub mod Http
