-- ===== src/Server/Exit.antt =====
-- The ways in which Midterm/src/server.c ends: `exitParent` (`kill_server`), `exitFailure` and
-- `exitSuccess`.
pub mod Signals
use gtu_cse344_system_progra.Base.{
  ℕ, zero, suc, Bool, true, false, Option, none, some, List, ◌∷◌, ◌==◌, if◌then◌else◌,
}
use gtu_cse344_system_progra.Server.Queue.Defs.{
  Client, Slot, null, uninit, live, Queue, dequeue, queue_destructor,
}
use gtu_cse344_system_progra.Server.Sync.Table.{Shared}

abbrev pub Bytes : Type 0
Bytes = List ℕ

-- What the server holds: its directory, its log with the last message first and whether `log_fd` is
-- open, its FIFO, the shared table, and the queues; and the processes it has sent SIGINT, the last
-- one first. For each of them it also unlinks the name `child_<pid>.fifo`.
pub record Server : Type 0 where
  pub directory : Bool
  pub log : List Bytes
  pub log_open : Bool
  pub fifo : Bool
  pub shared : Option Shared
  pub clients : Queue
  pub wait_que : Queue
  pub signalled : List ℕ

-- `exits true` is EXIT_SUCCESS; `crashes` where a pointer is used that is NULL or was never written;
-- `runs_on` where the fuel is used up.
pub data Ended : Type 0 where
  exits : Bool → Server → Ended
  crashes runs_on : Server → Ended

-- What follows the two calls of `queue_destructor`.
unfoldable pub destroyed :
    Option (List Client) → Option (List Client) → (Server → Ended) → Server → Ended
destroyed none e more s = crashes s
destroyed (some d) none more s = crashes s
destroyed (some d) (some e) more s = more s

unfoldable pub exit_failure : Server → Ended
unfolding destroyed
exit_failure s =
    destroyed (queue_destructor s.clients) (queue_destructor s.wait_que)
      (λ (t : Server). exits false (record t { log_open = false })) s

unfoldable pub exit_success : Server → Ended
unfolding destroyed
exit_success s =
    destroyed (queue_destructor s.clients) (queue_destructor s.wait_que)
      (λ (t : Server). exits true (record t { log_open = false })) s

-- Behind the loop of `exitParent`.
unfoldable pub close_all : Server → Ended
unfolding destroyed
close_all s =
    destroyed (queue_destructor s.wait_que) (queue_destructor s.clients)
      (λ (t : Server). exits true (record t { log_open = false; fifo = false })) s

abbrev pub signal : Client → Queue → Server → Server
signal c q s = record s { clients = q; signalled = c.pid ∷ s.signalled }

-- A round of the loop with the client that `dequeue` hands out; `next` is the rest of the loop.
unfoldable pub signal_client : (Server → Ended) → Slot × Queue → Server → Ended
signal_client next (live c, q) s = next (signal c q s)
signal_client next (null, q) s = crashes s
signal_client next (uninit, q) s = crashes s

-- The loop, on fuel, and what follows it.
unfoldable pub signal_clients : ℕ → Server → Ended
unfolding signal_client close_all
signal_clients zero s = runs_on s
signal_clients (suc fuel) s =
    if s.clients.size == 0
    then close_all s
    else signal_client (signal_clients fuel) (dequeue s.clients) s

-- Each round takes a client out of the queue.
unfoldable pub exit_parent : Server → Ended
unfolding signal_clients
exit_parent s = signal_clients (suc s.clients.size) s
