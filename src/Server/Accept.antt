-- ===== src/Server/Accept.antt =====
-- `accept_connections`, `child_process` and `client_termination_handler` of Midterm/src/server.c.

pub mod Order
pub mod Signals
mod Tests
use gtu_cse344_system_progra.Base.{
  ℕ, Bool, not, ◌&&◌, ◌||◌, Option, some, none, List, ◌∷◌, ◌==◌, ltb, if◌then◌else◌,
}
use gtu_cse344_system_progra.Base.Int.{ℤ, pos, ltb_ℤ, ◌+ℤ◌, ◌-ℤ◌}
use gtu_cse344_system_progra.Server.Queue.Defs.{
  Client, Slot, null, uninit, live, Queue, Malloc, dequeue, enqueue,
}

-- What the server does for a client: it forks a child for it, puts it into the waiting queue, or
-- writes 1, for full, into its FIFO.
pub data Answer : Type 0 where
  forks waits turns_away : ℕ → Answer

-- `answers` has the last one first.
pub record Server : Type 0 where
  pub num_clients : ℤ
  pub wait_que : Queue
  pub clients : Queue
  pub answers : List Answer

-- What the calls of one round return: `fork` and the calls on the client's FIFO, the allocations of
-- the two queues, and whether `client_fd` is other than -1, which is not set before its first use.
pub record Round : Type 0 where
  pub fork : Bool
  pub fifo : Bool
  pub fifo_write : Bool
  pub fd_set : Bool
  pub wait_alloc : Malloc
  pub clients_alloc : Malloc

pub data Next : Type 0 where
  serves exits : Server → Next

abbrev pub answer : (ℕ → Answer) → Client → Server → Server
answer a c s = record s { answers = a c.pid ∷ s.answers }

-- The parent's side.
unfoldable pub child_process : Round → Client → Server → Next
child_process r c s =
    if not r.fork
    then exits s
    else serves (answer forks c (record s { clients = (enqueue r.clients_alloc s.clients c).1 }))

abbrev pub counted : Server → Server
counted s = record s { num_clients = s.num_clients +ℤ pos 1 }

-- The part that takes a client out of the waiting queue; NULL makes the round go on to the read.
unfoldable pub take_waiting : Round → Server → Next → Slot × Queue → Next
unfolding child_process
take_waiting r s other (live c, q) = child_process r c (counted (record s { wait_que = q }))
take_waiting r s other (null, q) = other
take_waiting r s other (uninit, q) = other

-- A place is free and nobody waits. For a `tryConnect` client the FIFO is opened and closed.
unfoldable pub admit : Round → Client → Server → Next
unfolding child_process
admit r c s =
    if c.try_connect == 1 && not r.fifo then exits (counted s) else child_process r c (counted s)

-- All places are taken, or others wait.
unfoldable pub put_off : Round → Client → Server → Next
put_off r c s =
    if c.try_connect == 0
    then serves (answer waits c (record s { wait_que = (enqueue r.wait_alloc s.wait_que c).1 }))
    else if not r.fifo || not r.fifo_write
    then exits s
    else serves (answer turns_away c s)

unfoldable pub handle_request : ℕ → Round → Server → Option Client → Next
unfolding admit put_off
handle_request max_clients r s none = serves s
handle_request max_clients r s (some c) =
    if not r.fd_set
    then serves s
    else if ltb_ℤ s.num_clients (pos max_clients) && s.wait_que.size == 0
    then admit r c s
    else put_off r c s

-- One round of the loop; `request` is the client that the read gives, `none` where it returns -1.
unfoldable pub accept_round : ℕ → Round → Option Client → Server → Next
unfolding take_waiting handle_request
accept_round max_clients r request s =
    if ltb_ℤ s.num_clients (pos max_clients) && ltb 0 s.wait_que.size
    then take_waiting r s (handle_request max_clients r s request) (dequeue s.wait_que)
    else handle_request max_clients r s request

-- SIGCHLD
unfoldable pub client_termination_handler : Server → Server
client_termination_handler s = record s { num_clients = s.num_clients -ℤ pos 1 }
