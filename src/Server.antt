-- ===== src/Server.antt =====
-- Package server.
pub mod Directives
pub mod Recover
pub mod Assembly
pub mod Handler
pub mod Run
