-- ===== src/Server/Request.antt =====
-- Midterm/src/server.c: `request`, the loop by which a child of the server serves its client.
pub mod World
pub mod Info
pub mod Read
pub mod Write
pub mod Transfer
pub mod Balance
pub mod Brackets
pub mod Copying
pub mod Command
pub mod Tests
