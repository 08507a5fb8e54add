-- ===== src/Server/Sync.antt =====
-- Midterm/src/sync.c: the table of the files in shared memory, and their reader-writer lock.
pub mod Table
pub mod Find
pub mod Stable
pub mod Overlap
pub mod Lock
pub mod Invariant
pub mod Safety
mod Tests
