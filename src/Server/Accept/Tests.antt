-- ===== src/Server/Accept/Tests.antt =====
-- Rounds of `accept_connections` with two places.
use gtu_cse344_system_progra.Base.{
  ◌-◌, ℕ, ◌≡◌, refl, true, some, [], ◌∷◌, arith, ◌↔◌, ◌+◌, ◌≤◌, ◌<◌,
}
use gtu_cse344_system_progra.Base.Int.{pos, ◌+ℤ◌}
use gtu_cse344_system_progra.Server.Queue.Defs.{Client, live, Queue, Malloc, queue_constructor}
use gtu_cse344_system_progra.Server.Queue.Fifo.{Holds}
use gtu_cse344_system_progra.Server.Accept.{forks, Server, Round, serves, accept_round}
use gtu_cse344_system_progra.Server.Accept.Order.{longest_waiter_first}
use gtu_cse344_system_progra.Server.Accept.Signals.{
  at_top, Places, read_request, admit, load, store, fork, child_ends, Reach, start, next,
}
use gtu_cse344_system_progra.Server.Accept.Signals.Bounds.{signals, served-num_clients}
use gtu_cse344_system_progra.Server.Accept.Signals.Leak.{Quiet, places_lost}

abbrev connects : ℕ → Client
connects n = record { pid = n; try_connect = 0 }

abbrev memory : Malloc
memory = record { array = true; client = true }

abbrev round : Round
round = record {
  fork = true;
  fifo = true;
  fifo_write = true;
  fd_set = true;
  wait_alloc = memory;
  clients_alloc = memory;
}

abbrev waiting : Queue
waiting = record { front = 0; rear = 0; capacity = 1; size = 1; elements = live (connects 5) ∷ [] }

waiting-Holds : Holds waiting (connects 5 ∷ [])
waiting-Holds = record {
  whole = refl;
  front_in = omega arith;
  size_in = omega arith;
  next = refl;
  stored = refl;
}

-- The server with `n` of its two places taken and a client waiting.
abbrev server : ℕ → Server
server n = record {
  num_clients = pos n;
  wait_que = waiting;
  clients = queue_constructor;
  answers = [];
}

longest_waiter_first_example :
    (s' : Server) × (accept_round 2 round (some (connects 6)) (server 1) ≡ serves s')
    × Holds s'.wait_que []
    × (s'.answers ≡ forks 5 ∷ [])
    × (s'.num_clients ≡ pos 1 +ℤ pos 1)
longest_waiter_first_example =
    longest_waiter_first 2 round (some (connects 6)) (server 1) waiting-Holds refl refl

-- One client has come and left, and the signal for it waits.
abbrev left_places : Places
left_places = record {
  pc = at_top;
  num_clients = 0 + 1;
  waiting = 0;
  live = 0 + 1 - 1;
  pending = true;
}

left_places-Reach : Reach 2 left_places
left_places-Reach =
    let r1 : Reach 2 _ = next start (read_request refl (λ h. omega (arith, h.1)) 0) in
    let r2 = next r1 (admit refl (omega arith) refl) in
    let r3 = next r2 (load refl) in
    let r4 = next r3 (store refl) in
    let r5 = next r4 (fork refl) in next r5 (child_ends (omega arith))

served-num_clients_example :
    (left_places.live + signals left_places.pending ≤ left_places.num_clients)
    × (left_places.num_clients ≤ 2)
served-num_clients_example = served-num_clients left_places-Reach

places_lost_example : (1 < 2) ↔ ((s : Places) × Reach 2 s × Quiet 1 s)
places_lost_example = places_lost (omega arith) 1
