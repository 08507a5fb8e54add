-- ===== src/Server/Setup/Ready.antt =====
-- When `main` of Midterm/src/server.c comes to its loop, and what it leaves behind when it does not.
use gtu_cse344_system_progra.Base.{
  ◌≡◌, Bool, true, false, not, ◌&&◌, Option, none, some, [], ◌∷◌, ◌==◌, arith,
}
use gtu_cse344_system_progra.Base.Strings.{codes}
use gtu_cse344_system_progra.Server.Queue.Defs.{queue_constructor, queue_destructor, free_elements}
use gtu_cse344_system_progra.Server.Sync.Table.{initialize}
use gtu_cse344_system_progra.Server.Exit.{Server, exits, crashes, runs_on, exit_failure, destroyed}
use gtu_cse344_system_progra.Server.Setup.{
  Calls, Next, goes_on, ends, ◌>>=◌, check, setup_server_directory, setup_log_file, write_log,
  refuses, setup_server_fifo, accept_setup, map_shared, construct_queues, main,
}

-- The calls in front of `setup_server_fifo` succeed: a directory is there or can be made.
abbrev pub has_directory : Option Bool → Bool → Bool
has_directory none mkdir = mkdir
has_directory (some is_directory) mkdir = is_directory

abbrev pub prepared : Calls → Bool
prepared c =
    c.argc == 3
    && c.sigchld
    && c.sigint
    && c.sigtstp
    && c.shm_open
    && c.ftruncate
    && c.mmap
    && has_directory c.stat c.mkdir
    && c.open_log

abbrev pub has_fifo : Calls → Bool
has_fifo c = prepared c && not (refuses c.mkfifo)

abbrev pub ready : Calls → Bool
ready c = has_fifo c && c.write_created && c.write_started && c.open_read && c.open_write

-- The server in front of its loop.
abbrev pub served : Calls → Server
served c = record {
  directory = true;
  log = codes "Server Started" ∷ codes "Server FIFO created" ∷ [];
  log_open = true;
  fifo = true;
  shared = some (initialize c.sem_init c.entries c.memory).1;
  clients = queue_constructor;
  wait_que = queue_constructor;
  signalled = [];
}

-- How `main` may come out: at its loop with everything set up, or with EXIT_FAILURE.
abbrev pub IsRight : Calls → Next → Type 0
IsRight c (goes_on s) = (ready c ≡ true) × (s ≡ served c)
IsRight c (ends (exits ok s)) =
    (ready c ≡ false) × (ok ≡ false) × (s.log_open ≡ false) × (s.fifo ≡ has_fifo c)
IsRight c (ends (crashes s)) = false ≡ true
IsRight c (ends (runs_on s)) = false ≡ true

-- The server comes to its loop exactly when `argc` is 3, every call that it depends on
-- succeeds, and a FIFO that was there counts as made; then its directory, its log with two messages,
-- its FIFO, the shared table as `initialize` leaves it and two empty queues are there. Else it ends
-- with EXIT_FAILURE and its log closed, never by a bad pointer; but the FIFO, once there, stays.
pub main-IsRight : (c : Calls) → IsRight c (main c)
unfolding main ◌>>=◌ check map_shared construct_queues setup_server_directory setup_log_file
    setup_server_fifo accept_setup write_log exit_failure destroyed queue_destructor free_elements
    queue_constructor
main-IsRight c = ground arith
