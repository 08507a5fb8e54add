-- ===== src/Server/Setup.antt =====
-- `main` of Midterm/src/server.c up to the loop of `accept_connections`: the signal handlers, the
-- shared memory, and the functions that set up the directory, the log and the FIFO. `getpid`, and so
-- every file name, is fixed.
pub mod Ready
use gtu_cse344_system_progra.Base.{
  ℕ, Bool, true, false, not, ◌&&◌, ◌||◌, Option, none, some, List, [], ◌∷◌, ◌==◌, if◌then◌else◌,
}
use gtu_cse344_system_progra.Base.Strings.{codes}
use gtu_cse344_system_progra.Server.Queue.Defs.{queue_constructor}
use gtu_cse344_system_progra.Server.Sync.Table.{Name, SemInit, Shared, initialize}
use gtu_cse344_system_progra.Server.Exit.{Server, Ended, exit_failure}

-- What a call of `mkfifo` does: with `there` it fails with EEXIST.
pub data Mkfifo : Type 0 where
  made there refused : Mkfifo

-- What the calls return; `stat` none where there is no file, and otherwise whether it is a directory.
-- `memory` is what the mapping holds at first, and `entries` what `initialize` finds.
pub record Calls : Type 0 where
  pub argc : ℕ
  pub sigchld : Bool
  pub sigint : Bool
  pub sigtstp : Bool
  pub shm_open : Bool
  pub ftruncate : Bool
  pub mmap : Bool
  pub memory : Shared
  pub sem_init : Name → SemInit
  pub entries : Option (List Name)
  pub stat : Option Bool
  pub mkdir : Bool
  pub open_log : Bool
  pub mkfifo : Mkfifo
  pub write_created : Bool
  pub write_started : Bool
  pub open_read : Bool
  pub open_write : Bool

-- The server goes on, or ends.
pub data Next : Type 0 where
  goes_on : Server → Next
  ends : Ended → Next

abbrev pub fails : Server → Next
fails s = ends (exit_failure s)

infixl 20 ◌>>=◌
unfoldable pub ◌>>=◌ : Next → (Server → Next) → Next
goes_on s >>= more = more s
ends e >>= more = ends e

-- `exitFailure` where a call has failed.
unfoldable pub check : Bool → Server → Next
check ok s = if ok then goes_on s else fails s

unfoldable pub setup_server_directory : Calls → Server → Next
unfolding check
setup_server_directory c s = elim c.stat [
  | none ↦ if not c.mkdir then fails s else goes_on (record s { directory = true })
  | some is_directory ↦ check is_directory (record s { directory = is_directory })
]

unfoldable pub setup_log_file : Calls → Server → Next
setup_log_file c s =
    if not c.open_log then fails s else goes_on (record s { log = []; log_open = true })

unfoldable pub write_log : Bool → List ℕ → Server → Next
write_log ok message s = if not ok then fails s else goes_on (record s { log = message ∷ s.log })

abbrev pub refuses : Mkfifo → Bool
refuses refused = true
refuses made = false
refuses there = false

-- The messages, without the numbers and the path in them.
unfoldable pub setup_server_fifo : Calls → Server → Next
unfolding write_log
setup_server_fifo c s =
    if refuses c.mkfifo
    then fails s
    else write_log c.write_created (codes "Server FIFO created") (record s { fifo = true })

-- `accept_connections` in front of its loop.
unfoldable pub accept_setup : Calls → Server → Next
unfolding ◌>>=◌ check write_log
accept_setup c s =
    write_log c.write_started (codes "Server Started") s
    >>= check c.open_read
    >>= check c.open_write

-- The return value of `initialize` is not used.
unfoldable pub map_shared : Calls → Server → Next
map_shared c s =
    if not c.mmap
    then fails s
    else goes_on (record s { shared = some (initialize c.sem_init c.entries c.memory).1 })

unfoldable pub construct_queues : Server → Next
construct_queues s =
    goes_on (record s { wait_que = queue_constructor; clients = queue_constructor })

-- The static variables of a program that starts: both queues are all zero.
abbrev pub at_start : Server
at_start = record {
  directory = false;
  log = [];
  log_open = false;
  fifo = false;
  shared = none;
  clients = queue_constructor;
  wait_que = queue_constructor;
  signalled = [];
}

unfoldable pub main : Calls → Next
unfolding ◌>>=◌ check map_shared construct_queues setup_server_directory setup_log_file
    setup_server_fifo accept_setup
main c =
    check (c.argc == 3) at_start
    >>= check c.sigchld
    >>= check c.sigint
    >>= check c.sigtstp
    >>= check c.shm_open
    >>= check c.ftruncate
    >>= map_shared c
    >>= construct_queues
    >>= setup_server_directory c
    >>= setup_log_file c
    >>= setup_server_fifo c
    >>= accept_setup c
