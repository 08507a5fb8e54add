-- ===== src/Copy/Barrier.antt =====
-- The copier of HW5/src: the threads of HW4 wait for each other at a barrier before they end. The
-- barrier is the one of pthread_barrier_init(3) for `n + 1` threads, each of which waits at it once:
-- a thread that waits goes on when `n + 1` have arrived.
pub mod Store
pub mod Stays
pub mod Safety
pub mod Progress
pub mod Tests
use gtu_cse344_system_progra.Base.{List, ℕ, ◌+◌, ◌<◌, ◌≡◌}
use gtu_cse344_system_progra.Base.Family.{update}
use gtu_cse344_system_progra.Copy.Buffer.Defs.{BufferElement, Buffer}
use gtu_cse344_system_progra.Copy.Crew.Defs.{Crew, finished, gone, Step, at_start}

-- Where a thread is: in front of the barrier, at it, or behind it.
pub data Stage : Type 0 where
  working waiting left : Stage

pub record Hall : Type 0 where
  pub crew : Crew
  pub manager : Stage
  pub worker : ℕ → Stage
  pub arrived : ℕ

-- What follows the last step of `manager_function` on the buffer.
pub data ManagerMove (n : ℕ) (h : Hall) : Hall → Type 0 where
  manager_waits :
      h.crew.manager ≡ finished
      → h.manager ≡ working
      → ManagerMove n h (record h { manager = waiting; arrived = h.arrived + 1 })
  manager_leaves :
      h.manager ≡ waiting → h.arrived ≡ n + 1 → ManagerMove n h (record h { manager = left })

-- What follows the last step of a `worker_function`, which has found the buffer empty and done.
pub data WorkerMove (n : ℕ) (h : Hall) : Hall → Type 0 where
  worker_waits :
      (i : ℕ)
      → i < n
      → h.crew.worker i ≡ gone
      → h.worker i ≡ working
      → WorkerMove n h (record h { worker = update h.worker i waiting; arrived = h.arrived + 1 })
  worker_leaves :
      (i : ℕ)
      → i < n
      → h.worker i ≡ waiting
      → h.arrived ≡ n + 1
      → WorkerMove n h (record h { worker = update h.worker i left })

pub data HallMove (n : ℕ) (h : Hall) : Hall → Type 0 where
  works : {s : Crew} → Step n h.crew s → HallMove n h (record h { crew = s })
  manager_moves : {h' : Hall} → ManagerMove n h h' → HallMove n h h'
  worker_moves : {h' : Hall} → WorkerMove n h h' → HallMove n h h'

abbrev pub hall_at_start : Buffer → List BufferElement → Hall
hall_at_start b files = record {
  crew = at_start b files;
  manager = working;
  worker = λ _. working;
  arrived = 0;
}

-- What some moves lead to.
pub data HallRun (n : ℕ) (h : Hall) : Hall → Type 0 where
  stay : HallRun n h h
  move : {h' h'' : Hall} → HallRun n h h' → HallMove n h' h'' → HallRun n h h''
