-- ===== src/Server/Queue.antt =====
-- Midterm/src/structs.c: the growing circular queue of clients.
pub mod Defs
pub mod Fifo
pub mod Order
pub mod Destroy
mod Tests
