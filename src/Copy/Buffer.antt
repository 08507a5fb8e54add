-- ===== src/Copy/Buffer.antt =====
-- HW4/src/buffer.h and buffer.c: the bounded buffer between the manager and the workers.
-- A function of `buffer.c` holds the mutex from its first line to its last but for the time that
-- it sleeps in `pthread_cond_wait`, so its model is one atomic attempt: `waits`, with the condition
-- variable on which it sleeps and the buffer as it was, or the value that it returns with the new
-- buffer and the wake-up that it sends before it unlocks.

pub mod Defs
pub mod Inv
pub mod Fifo
pub mod History
mod Tests
