-- ===== src/Server/Queue/Tests.antt =====
-- A queue of `structs.c` that is full and wrapped around.
use gtu_cse344_system_progra.Server.Queue.Defs.{success}
use gtu_cse344_system_progra.Base.{none, ℕ, ◌≡◌, refl, true, [], ◌∷◌, arith}
use gtu_cse344_system_progra.Server.Queue.Defs.{
  queue_destructor, Client, live, Queue, Malloc, dequeue, enqueue,
}
use gtu_cse344_system_progra.Server.Queue.Fifo.{Holds}
use gtu_cse344_system_progra.Server.Queue.Destroy.{queue_destructor_unwritten}
use gtu_cse344_system_progra.Server.Queue.Order.{after, enqueue-Holds, dequeue-Holds}

abbrev client : ℕ → Client
client n = record { pid = n; try_connect = 0 }

abbrev granted : Malloc
granted = record { array = true; client = true }

abbrev two : Queue
two = record {
  front = 1;
  rear = 1;
  capacity = 2;
  size = 2;
  elements = live (client 8) ∷ live (client 7) ∷ [];
}

two-Holds : Holds two (client 7 ∷ client 8 ∷ [])
two-Holds = record {
  whole = refl;
  front_in = omega arith;
  size_in = omega arith;
  next = refl;
  stored = refl;
}

enqueue-Holds_example :
    let (code, q') = enqueue granted two (client 9) in
    (code ≡ success) × Holds q' (after code (client 7 ∷ client 8 ∷ []) (client 9))
enqueue-Holds_example = enqueue-Holds granted (client 9) two-Holds

dequeue-Holds_example : ((dequeue two).0 ≡ live (client 7)) × Holds (dequeue two).1 (client 8 ∷ [])
dequeue-Holds_example = dequeue-Holds two-Holds

queue_destructor_unwritten_example : queue_destructor (enqueue granted two (client 9)).1 ≡ none
queue_destructor_unwritten_example =
    queue_destructor_unwritten granted (client 9) two-Holds refl (omega arith) refl refl
