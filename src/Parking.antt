-- ===== src/Parking.antt =====
-- HW3/src/main.c: the parking lot, its owner and its two attendants.
pub mod Lot
pub mod Safety
mod Tests
mod FullTests
