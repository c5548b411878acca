-- ===== src/Server.antt =====
-- internal/server: the fetcher of programs, and what the handlers send and return.
pub mod Act
pub mod Guarded
pub mod Fetcher
pub mod Handlers
pub mod Info
pub mod Capture
