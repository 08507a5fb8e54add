-- ===== src/Server/Whole.antt =====
-- The rounds of `accept_connections` one after the other, with SIGCHLD between them, and the end by
-- `exitParent` (Midterm/src/server.c).
mod Tests
use gtu_cse344_system_progra.Base.{
  ℕ, ◌+◌, ◌≡◌, refl, ap, ◌∙◌, sym, subst, Bool-cases, inl, inr, Bool, true, false, Option, some,
  none, List, [], ◌∷◌, ◌++◌, ◌&&◌, ltb, not, ◌||◌, ◌==◌, arith,
}
use gtu_cse344_system_progra.Base.Int.{pos, ltb_ℤ, ◌+ℤ◌}
use gtu_cse344_system_progra.Server.Queue.Defs.{
  Client, Slot, null, uninit, live, Queue, Malloc, Code, success, failure, dequeue, enqueue,
  enqueue_with, make_room, resize_queue, place, queue_constructor,
}
use gtu_cse344_system_progra.Server.Queue.Fifo.{Holds, queue_constructor-Holds}
use gtu_cse344_system_progra.Server.Queue.Order.{after, enqueue_kept}
use gtu_cse344_system_progra.Server.Accept
use gtu_cse344_system_progra.Server.Accept.{
  Answer, forks, waits, turns_away, Round, Next, serves, exits, answer, counted, child_process,
  take_waiting, admit, put_off, handle_request, accept_round, client_termination_handler,
}
use gtu_cse344_system_progra.Server.Exit
use gtu_cse344_system_progra.Server.Exit.{exit_parent}
use gtu_cse344_system_progra.Server.Exit.Signals.{
  IsWritten, signalled_then, Closes, exit_parent-Closes,
}

-- A round with what it reads, or a child that ends.
pub data Event : Type 0 where
  round : Round → Option Client → Event
  sigchld : Event

abbrev pub and_then : Next → (Accept.Server → Next) → Next
and_then (serves s) more = more s
and_then (exits s) more = exits s

unfoldable pub happen : ℕ → Event → Accept.Server → Next
happen max_clients (round r request) s = accept_round max_clients r request s
happen max_clients sigchld s = serves (client_termination_handler s)

unfoldable pub serve : ℕ → List Event → Accept.Server → Next
unfolding happen
serve max_clients [] s = serves s
serve max_clients (e ∷ es) s = and_then (happen max_clients e s) (serve max_clients es)

-- The memory for a client in the queue of clients is there in every round.
abbrev pub HasMemory : List Event → Type 0
HasMemory [] = Unit
HasMemory (round r request ∷ es) =
    (r.clients_alloc.array ≡ true) × (r.clients_alloc.client ≡ true) × HasMemory es
HasMemory (sigchld ∷ es) = HasMemory es

-- The clients that a child was forked for, the last one first.
abbrev pub forked : List Answer → List ℕ
forked [] = []
forked (forks pid ∷ done) = pid ∷ forked done
forked (waits pid ∷ done) = forked done
forked (turns_away pid ∷ done) = forked done

-- The queue of clients holds those that a child was forked for, in their order.
record Tracks (clients : Queue) (answers : List Answer) : Type 0 where
  held : List Client
  holds : Holds clients held
  same : signalled_then held [] ≡ forked answers

abbrev Tracked : Next → Type 0
Tracked (serves s) = Tracks s.clients s.answers
Tracked (exits s) = Tracks s.clients s.answers

enqueue-success :
    (m : Malloc) (q : Queue) (c : Client)
    → m.array ≡ true
    → m.client ≡ true
    → (enqueue m q c).0 ≡ success
unfolding enqueue enqueue_with make_room resize_queue place
enqueue-success m q c a b = ground arith

signalled_then-append :
    (cs : List Client) (c : Client) (pids : List ℕ)
    → signalled_then (cs ++ (c ∷ [])) pids ≡ c.pid ∷ signalled_then cs pids
signalled_then-append [] c pids = refl
signalled_then-append (d ∷ cs) c pids = signalled_then-append cs c (d.pid ∷ pids)

answer-Tracks :
    {clients : Queue} {a : Answer} {answers : List Answer}
    → forked (a ∷ answers) ≡ forked answers
    → Tracks clients answers
    → Tracks clients (a ∷ answers)
answer-Tracks e t = record { held = t.held; holds = t.holds; same = t.same ∙ sym e }

module _ (r : Round)
    (memory : (r.clients_alloc.array ≡ true) × (r.clients_alloc.client ≡ true)) where
  child_process-Tracked :
      (c : Client) (s : Accept.Server) → Tracks s.clients s.answers → Tracked (child_process r c s)
  unfolding child_process
  child_process-Tracked c s t = elim (Bool-cases r.fork) [
    | inl e ↦ rw e (record {
      held = t.held ++ (c ∷ []);
      holds =
          subst (λ (k : Code). Holds (enqueue r.clients_alloc s.clients c).1 (after k t.held c))
            (enqueue-success r.clients_alloc s.clients c memory.0 memory.1)
            (enqueue_kept r.clients_alloc c t.holds);
      same = signalled_then-append t.held c [] ∙ ap (λ (ps : List ℕ). c.pid ∷ ps) t.same;
    })
    | inr e ↦ rw e t
  ]

  put_off-Tracked :
      (c : Client) (s : Accept.Server) → Tracks s.clients s.answers → Tracked (put_off r c s)
  unfolding put_off
  put_off-Tracked c s t = elim (Bool-cases (c.try_connect == 0)) [
    | inl e ↦ rw e (answer-Tracks refl t)
    | inr e ↦ elim (Bool-cases (not r.fifo || not r.fifo_write)) [
      | inl f ↦ rw (e, f) t
      | inr f ↦ rw (e, f) (answer-Tracks refl t)
    ]
  ]

  admit-Tracked :
      (c : Client) (s : Accept.Server) → Tracks s.clients s.answers → Tracked (admit r c s)
  unfolding admit
  admit-Tracked c s t = elim (Bool-cases (c.try_connect == 1 && not r.fifo)) [
    | inl e ↦ rw e t
    | inr e ↦ rw e (child_process-Tracked c (counted s) t)
  ]

  handle_request-Tracked :
      (m : ℕ) (request : Option Client) (s : Accept.Server)
      → Tracks s.clients s.answers
      → Tracked (handle_request m r s request)
  unfolding handle_request
  handle_request-Tracked m none s t = t
  handle_request-Tracked m (some c) s t = elim (Bool-cases r.fd_set) [
    | inr e ↦ rw e t
    | inl e ↦ elim (Bool-cases (ltb_ℤ s.num_clients (pos m) && s.wait_que.size == 0)) [
      | inl f ↦ rw (e, f) (admit-Tracked c s t)
      | inr f ↦ rw (e, f) (put_off-Tracked c s t)
    ]
  ]

  take_waiting-Tracked :
      (s : Accept.Server) (other : Next) (d : Slot × Queue)
      → Tracks s.clients s.answers
      → Tracked other
      → Tracked (take_waiting r s other d)
  unfolding take_waiting
  take_waiting-Tracked s other (live c, q) t o =
      child_process-Tracked c (counted (record s { wait_que = q })) t
  take_waiting-Tracked s other (null, q) t o = o
  take_waiting-Tracked s other (uninit, q) t o = o

  accept_round-Tracked :
      (m : ℕ) (request : Option Client) (s : Accept.Server)
      → Tracks s.clients s.answers
      → Tracked (accept_round m r request s)
  unfolding accept_round
  accept_round-Tracked m request s t =
      let o = handle_request-Tracked m request s t in
      elim (Bool-cases (ltb_ℤ s.num_clients (pos m) && ltb 0 s.wait_que.size)) [
        | inl e ↦
            rw e (take_waiting-Tracked s (handle_request m r s request) (dequeue s.wait_que) t o)
        | inr e ↦ rw e o
      ]

and_then-Tracked :
    (n : Next) (more : Accept.Server → Next)
    → Tracked n
    → ((s : Accept.Server) → Tracks s.clients s.answers → Tracked (more s))
    → Tracked (and_then n more)
and_then-Tracked (serves s) more t h = h s t
and_then-Tracked (exits s) more t h = t

serve-Tracked :
    (m : ℕ) (es : List Event) (s : Accept.Server)
    → HasMemory es
    → Tracks s.clients s.answers
    → Tracked (serve m es s)
unfolding serve happen client_termination_handler
serve-Tracked m [] s h t = t
serve-Tracked m (round r request ∷ es) s (a, b, h) t =
    and_then-Tracked (accept_round m r request s) (serve m es)
      (accept_round-Tracked r (a, b) m request s t) (λ u v. serve-Tracked m es u h v)
serve-Tracked m (sigchld ∷ es) s h t = serve-Tracked m es (client_termination_handler s) h t

-- The server as `main` brings it to its loop.
abbrev pub at_first : Accept.Server
at_first = record {
  num_clients = pos 0;
  wait_que = queue_constructor;
  clients = queue_constructor;
  answers = [];
}

at_first-Tracks : Tracks queue_constructor []
at_first-Tracks = record { held = []; holds = queue_constructor-Holds; same = refl }

-- The server that a signal ends: the queues are those of the loop.
abbrev pub stopped : Exit.Server → Accept.Server → Exit.Server
stopped x s = record x { clients = s.clients; wait_que = s.wait_que; signalled = [] }

-- Whatever requests, failures and SIGCHLD the loop has gone through from its start, with memory for
-- the queue of clients and no pointer in the queues that was never written: when SIGINT or SIGTSTP
-- then ends the server between two rounds, `exitParent` signals exactly the clients that it has forked a child for,
-- each once and in that order, also those that have left; and it closes its log and removes its
-- FIFO.
pub exit_signals_forked :
    (max_clients : ℕ) (es : List Event) {s : Accept.Server} (x : Exit.Server)
    → HasMemory es
    → serve max_clients es at_first ≡ serves s
    → IsWritten s.clients
    → IsWritten s.wait_que
    → Closes x.log (forked s.answers) (exit_parent (stopped x s))
exit_signals_forked m es {s} x h e w v =
    let t : Tracks s.clients s.answers =
      subst Tracked e (serve-Tracked m es at_first h at_first-Tracks) in
    subst (λ (ps : List ℕ). Closes x.log ps (exit_parent (stopped x s))) t.same
      (exit_parent-Closes (stopped x s) t.holds w v)
