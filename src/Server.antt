-- ===== src/Server.antt =====
-- Midterm: the concurrent file server.
pub mod Queue
pub mod Sync
pub mod Request
pub mod Exit
pub mod Setup
pub mod Accept
pub mod Whole
pub mod Session
pub mod Client
