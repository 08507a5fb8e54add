-- ===== src/Copy/Crew/Defs.antt =====
-- The steps of `manager_function` (HW4/src/manager.c), over the elements that `copy_directory` makes
-- one after the other, and of any number of `worker_function` (HW4/src/worker.c), on one buffer. A
-- thread that sleeps on a condition variable takes no step until it is woken, and then makes its
-- attempt again.
use gtu_cse344_system_progra.Base.{◌+◌, ℕ, ◌<◌, ◌≡◌, ◌≢◌, true, false, some, none, List, [], ◌∷◌}
use gtu_cse344_system_progra.Base.Family.{update}
use gtu_cse344_system_progra.Copy.Buffer.Defs.{
  BufferElement, Buffer, empty, full, Wake, no_wake, signal, broadcast, waits, returns, buffer_push,
  buffer_pop, buffer_set_done, buffer_is_done,
}

pub data ManagerPc : Type 0 where
  pushing push_sleeps finished : ManagerPc

pub data WorkerPc : Type 0 where
  popping pop_sleeps gone : WorkerPc
  copying : BufferElement → WorkerPc

-- `todo` is what the manager has still to push, `copied` the elements for which a worker has gone
-- through its loop, whatever read and write returned there, and closed the files, the last one first.
pub record Crew : Type 0 where
  pub buffer : Buffer
  pub todo : List BufferElement
  pub manager : ManagerPc
  pub worker : ℕ → WorkerPc
  pub copied : List BufferElement

abbrev pub wake_manager : ManagerPc → ManagerPc
wake_manager pushing = pushing
wake_manager push_sleeps = pushing
wake_manager finished = finished

abbrev pub wake_worker : WorkerPc → WorkerPc
wake_worker popping = popping
wake_worker pop_sleeps = popping
wake_worker gone = gone
wake_worker (copying x) = copying x

-- What a wake-up does among `n` workers: the manager alone sleeps on `full`, the workers on `empty`,
-- and a signal wakes any one of them, if there is one.
pub data Wakes (n : ℕ) (s : Crew) : Wake → Crew → Type 0 where
  wakes_none : Wakes n s no_wake s
  wakes_manager : Wakes n s (signal full) (record s { manager = wake_manager s.manager })
  wakes_one :
      (i : ℕ)
      → i < n
      → s.worker i ≡ pop_sleeps
      → Wakes n s (signal empty) (record s { worker = update s.worker i popping })
  wakes_nobody : ((i : ℕ) → i < n → s.worker i ≢ pop_sleeps) → Wakes n s (signal empty) s
  wakes_all : Wakes n s (broadcast empty) (record s { worker = λ i. wake_worker (s.worker i) })

pub data Step (n : ℕ) (s : Crew) : Crew → Type 0 where
  push_waits :
      {x : BufferElement} {xs : List BufferElement}
      → s.manager ≡ pushing
      → s.todo ≡ x ∷ xs
      → buffer_push s.buffer x ≡ waits full
      → Step n s (record s { manager = push_sleeps })
  pushes :
      {x : BufferElement} {xs : List BufferElement} {r : ℕ} {w : Wake} {b : Buffer} {t : Crew}
      → s.manager ≡ pushing
      → s.todo ≡ x ∷ xs
      → buffer_push s.buffer x ≡ returns r w b
      → Wakes n (record s { buffer = b; todo = xs }) w t
      → Step n s t
  marks :
      {w : Wake} {b : Buffer} {t : Crew}
      → s.manager ≡ pushing
      → s.todo ≡ []
      → buffer_set_done s.buffer ≡ returns tt w b
      → Wakes n (record s { buffer = b; manager = finished }) w t
      → Step n s t
  pop_waits :
      (i : ℕ)
      → i < n
      → s.worker i ≡ popping
      → buffer_pop s.buffer ≡ waits empty
      → Step n s (record s { worker = update s.worker i pop_sleeps })
  pops :
      (i : ℕ) {x : BufferElement} {w : Wake} {b : Buffer} {t : Crew}
      → i < n
      → s.worker i ≡ popping
      → buffer_pop s.buffer ≡ returns (some x) w b
      → Wakes n (record s { buffer = b; worker = update s.worker i (copying x) }) w t
      → Step n s t
  ends :
      (i : ℕ) {w : Wake} {b : Buffer}
      → i < n
      → s.worker i ≡ popping
      → buffer_pop s.buffer ≡ returns none w b
      → buffer_is_done b ≡ true
      → Step n s (record s { buffer = b; worker = update s.worker i gone })
  retries :
      (i : ℕ) {w : Wake} {b : Buffer}
      → i < n
      → s.worker i ≡ popping
      → buffer_pop s.buffer ≡ returns none w b
      → buffer_is_done b ≡ false
      → Step n s (record s { buffer = b })
  copies :
      (i : ℕ) {x : BufferElement}
      → i < n
      → s.worker i ≡ copying x
      → Step n s (record s { worker = update s.worker i popping; copied = x ∷ s.copied })

-- At first every thread is at its start, and nothing is copied.
abbrev pub at_start : Buffer → List BufferElement → Crew
at_start b files = record {
  buffer = b;
  todo = files;
  manager = pushing;
  worker = λ _. popping;
  copied = [];
}

-- What `k` steps lead to.
pub data Run (n : ℕ) (s : Crew) : ℕ → Crew → Type 0 where
  stop : Run n s 0 s
  then : {k : ℕ} {t u : Crew} → Run n s k t → Step n t u → Run n s (1 + k) u
