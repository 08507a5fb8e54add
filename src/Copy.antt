-- ===== src/Copy.antt =====
-- HW4 and HW5: the concurrent directory copier.
pub mod Buffer
pub mod Crew
pub mod Walk
pub mod Bytes
pub mod Time
pub mod Barrier
pub mod Whole
pub mod Program
mod Tests
