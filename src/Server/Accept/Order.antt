-- ===== src/Server/Accept/Order.antt =====
-- The places and the waiting clients of the server, round by round.
use gtu_cse344_system_progra.Base.{
  Bool-cases, inl, inr, ltb, lt→ltb, ◌&&◌, ℕ, ◌≡◌, refl, Bool, true, false, Option, some, none,
  List, ◌∷◌, arith,
}
use gtu_cse344_system_progra.Base.Int.{pos, ltb_ℤ, ◌+ℤ◌, ◌≤ℤ◌}
use gtu_cse344_system_progra.Server.Queue.Defs.{
  Client, Slot, null, uninit, live, Queue, dequeue, enqueue,
}
use gtu_cse344_system_progra.Server.Queue.Fifo.{Holds, size-Holds}
use gtu_cse344_system_progra.Server.Queue.Order.{after, enqueue_kept, dequeue-Holds}
use gtu_cse344_system_progra.Server.Accept.{
  forks, waits, Server, Round, Next, serves, exits, answer, child_process, counted, take_waiting,
  handle_request, accept_round,
}

abbrev pub InPlaces : ℕ → Next → Type 0
InPlaces max_clients (serves s) = s.num_clients ≤ℤ pos max_clients
InPlaces max_clients (exits s) = s.num_clients ≤ℤ pos max_clients

child_process-InPlaces :
    (m : ℕ) (r : Round) (c : Client) (s : Server)
    → ltb_ℤ s.num_clients (pos m) ≡ true
    → InPlaces m (child_process r c (counted s))
unfolding child_process ◌+ℤ◌
child_process-InPlaces m r c s h = ground arith

handle_request-InPlaces :
    (m : ℕ) (r : Round) (s : Server) (request : Option Client)
    → s.num_clients ≤ℤ pos m
    → InPlaces m (handle_request m r s request)
unfolding handle_request child_process ◌+ℤ◌
handle_request-InPlaces m r s none h = h
handle_request-InPlaces m r s (some c) h = ground arith

take_waiting-InPlaces :
    (m : ℕ) (r : Round) (s : Server) (other : Next) (d : Slot × Queue)
    → ltb_ℤ s.num_clients (pos m) ≡ true
    → InPlaces m other
    → InPlaces m (take_waiting r s other d)
unfolding take_waiting
take_waiting-InPlaces m r s other (live c, q) h k =
    child_process-InPlaces m r c (record s { wait_que = q }) h
take_waiting-InPlaces m r s other (null, q) h k = k
take_waiting-InPlaces m r s other (uninit, q) h k = k

and_left : (a b : Bool) → (a && b) ≡ true → a ≡ true
and_left true b h = refl
and_left false b h = cc

-- From a state with no more clients than the server has places, a round leaves no more clients than
-- places, whatever its calls return.
pub accept_round-InPlaces :
    (m : ℕ) (r : Round) (request : Option Client) (s : Server)
    → s.num_clients ≤ℤ pos m
    → InPlaces m (accept_round m r request s)
unfolding accept_round
accept_round-InPlaces m r request s h =
    elim (Bool-cases (ltb_ℤ s.num_clients (pos m) && ltb 0 s.wait_que.size)) [
      | inl e ↦ rw e (
          take_waiting-InPlaces m r s (handle_request m r s request) (dequeue s.wait_que)
            (and_left (ltb_ℤ s.num_clients (pos m)) (ltb 0 s.wait_que.size) e)
            (handle_request-InPlaces m r s request h))
      | inr e ↦ rw e (handle_request-InPlaces m r s request h)
    ]

module _ (m : ℕ) (r : Round) (request : Option Client) (s : Server) {c : Client}
    {cs : List Client} where
  -- While clients wait in a well-formed queue and a place is free, a round whose fork succeeds
  -- forks a child for the one that has waited longest, whatever request has come in the meantime,
  -- counts it, and lets the others go on waiting in their order.
  pub longest_waiter_first :
      Holds s.wait_que (c ∷ cs)
      → ltb_ℤ s.num_clients (pos m) ≡ true
      → r.fork ≡ true
      → (s' : Server) × (accept_round m r request s ≡ serves s')
        × Holds s'.wait_que cs
        × (s'.answers ≡ forks c.pid ∷ s.answers)
        × (s'.num_clients ≡ s.num_clients +ℤ pos 1)
  unfolding accept_round child_process take_waiting
  longest_waiter_first h room forked = (
    answer forks c (record s {
      wait_que = (dequeue s.wait_que).1;
      num_clients = s.num_clients +ℤ pos 1;
      clients = (enqueue r.clients_alloc s.clients c).1;
    }),
    taken,
    (dequeue-Holds h).1,
    refl,
    refl,
  )
    where
      some_wait : ltb 0 s.wait_que.size ≡ true
      some_wait = lt→ltb 0 s.wait_que.size (omega (arith, size-Holds h))

      taken :
          accept_round m r request s
          ≡ serves (
              answer forks c (record s {
                wait_que = (dequeue s.wait_que).1;
                num_clients = s.num_clients +ℤ pos 1;
                clients = (enqueue r.clients_alloc s.clients c).1;
              }))
      taken = ground (arith, (dequeue-Holds h).0, some_wait)

module _ (m : ℕ) (r : Round) (s : Server) (c : Client) {ws : List Client} where
  -- A `Connect` client that is read while all places are taken, with `client_fd` other than -1 and
  -- the waiting queue well formed, waits behind those who wait already, if the memory for it can be
  -- had; if it cannot, the queue holds the same clients as before. The count of clients stays.
  pub newcomer_waits_last :
      Holds s.wait_que ws
      → ltb_ℤ s.num_clients (pos m) ≡ false
      → r.fd_set ≡ true
      → c.try_connect ≡ 0
      → (s' : Server) × (accept_round m r (some c) s ≡ serves s')
        × Holds s'.wait_que (after (enqueue r.wait_alloc s.wait_que c).0 ws c)
        × (s'.num_clients ≡ s.num_clients)
  unfolding accept_round
  newcomer_waits_last h full set connect = (
    answer waits c (record s { wait_que = (enqueue r.wait_alloc s.wait_que c).1 }),
    ground arith,
    enqueue_kept r.wait_alloc c h,
    refl,
  )
