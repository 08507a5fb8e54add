-- ===== src/Copy/Crew.antt =====
-- The threads of the copier: the manager, from HW4/src/manager.c, and its workers, from
-- HW4/src/worker.c.
pub mod Defs
pub mod Facts
pub mod Inv
pub mod Keeps
pub mod Progress
pub mod Measure
pub mod Complete
pub mod Tests
