-- ===== src/Server/Exit/Signals.antt =====
-- Whom `exitParent` of Midterm/src/server.c signals.
use gtu_cse344_system_progra.Server.Exit.{
  Bytes, destroyed, signal_client, close_all, exit_parent, signal_clients, Server, Ended, exits,
  signal,
}
use gtu_cse344_system_progra.Base.{
  Option-cases, inl, inr, ◌<◌, ℕ, zero, suc, ◌≡◌, ◌≢◌, refl, true, false, none, List, [], ◌∷◌, set,
  arith, length, ◌==◌, ap,
}
use gtu_cse344_system_progra.Server.Queue.Defs.{
  Client, Slot, null, uninit, live, Queue, dequeue, free_elements, queue_destructor,
}
use gtu_cse344_system_progra.Server.Queue.Fifo.{Holds, size-Holds}
use gtu_cse344_system_progra.Server.Queue.Order.{dequeue-Holds}

-- No pointer of the array is one that was never written.
abbrev pub IsWritten : Queue → Type 0
IsWritten q = queue_destructor q ≢ none

free_elements-set_null :
    (xs : List Slot) (i : ℕ) → free_elements xs ≢ none → free_elements (set xs i null) ≢ none
unfolding free_elements
free_elements-set_null [] i h = h
free_elements-set_null (null ∷ xs) zero h = h
free_elements-set_null (null ∷ xs) (suc i) h = free_elements-set_null xs i h
free_elements-set_null (uninit ∷ xs) zero h = absurd (h refl)
free_elements-set_null (uninit ∷ xs) (suc i) h = h
free_elements-set_null (live c ∷ xs) zero h = ground arith
free_elements-set_null (live c ∷ xs) (suc i) h = ground (arith, free_elements-set_null xs i)

dequeue-IsWritten : (q : Queue) → IsWritten q → IsWritten (dequeue q).1
unfolding dequeue queue_destructor
dequeue-IsWritten q h = ground (arith, free_elements-set_null q.elements q.front h)

-- The processes of the queue, the last one first, in front of those signalled before.
abbrev pub signalled_then : List Client → List ℕ → List ℕ
signalled_then [] pids = pids
signalled_then (c ∷ cs) pids = signalled_then cs (c.pid ∷ pids)

-- The exit with success that closes the log and removes the FIFO.
pub record Closes (log : List Bytes) (pids : List ℕ) (e : Ended) : Type 0 where
  pub rest : Server
  pub ended : e ≡ exits true rest
  pub signalled : rest.signalled ≡ pids
  pub nobody_left : rest.clients.size ≡ 0
  pub log_closed : rest.log_open ≡ false
  pub fifo_gone : rest.fifo ≡ false
  pub log_kept : rest.log ≡ log

close_all-Closes :
    (s : Server)
    → IsWritten s.clients
    → IsWritten s.wait_que
    → s.clients.size ≡ 0
    → Closes s.log s.signalled (close_all s)
unfolding close_all destroyed
close_all-Closes s h k z = elim (Option-cases (queue_destructor s.wait_que)) [
  | inl e ↦ absurd (k e)
  | inr (d, e) ↦ elim (Option-cases (queue_destructor s.clients)) [
    | inl e' ↦ absurd (h e')
    | inr (d', e') ↦ record {
      rest = record s { log_open = false; fifo = false };
      ended = rw (e, e') refl;
      signalled = refl;
      nobody_left = z;
      log_closed = refl;
      fifo_gone = refl;
      log_kept = refl;
    }
  ]
]

signal_clients-Closes :
    (cs : List Client) (fuel : ℕ) (s : Server)
    → Holds s.clients cs
    → length cs < fuel
    → IsWritten s.clients
    → IsWritten s.wait_que
    → Closes s.log (signalled_then cs s.signalled) (signal_clients fuel s)
unfolding signal_clients signal_client
signal_clients-Closes cs zero s h lt w v = absurd (omega arith)
signal_clients-Closes [] (suc fuel) s h lt w v =
    let z : s.clients.size ≡ 0 = size-Holds h in
    let empty : (s.clients.size == 0) ≡ true = ground arith in rw empty (close_all-Closes s w v z)
signal_clients-Closes (c ∷ cs) (suc fuel) s h lt w v =
    let d = dequeue-Holds h in
    let q = (dequeue s.clients).1 in
    let step : dequeue s.clients ≡ (live c, q) = ap (λ (x : Slot). (x, q)) d.0 in
    let some_one : (s.clients.size == 0) ≡ false = ground (arith, size-Holds h) in
    let ih =
      signal_clients-Closes cs fuel (signal c q s) d.1 (omega arith) (dequeue-IsWritten s.clients w)
        v in
    rw (some_one, step) ih

-- For well-formed queues with no pointer that was never written, `exitParent` ends with success: it
-- has sent SIGINT to each client that is in the queue of clients, once and in the order in which
-- they came, the queue is empty, the log is closed and the server's FIFO is gone.
pub exit_parent-Closes :
    (s : Server) {cs : List Client}
    → Holds s.clients cs
    → IsWritten s.clients
    → IsWritten s.wait_que
    → Closes s.log (signalled_then cs s.signalled) (exit_parent s)
unfolding exit_parent
exit_parent-Closes s {cs} h w v =
    signal_clients-Closes cs (suc s.clients.size) s h (omega (arith, size-Holds h)) w v
