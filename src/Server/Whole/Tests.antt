-- ===== src/Server/Whole/Tests.antt =====
-- The server at concrete inputs.
use gtu_cse344_system_progra.Base.{◌≡◌, refl, true, false, some, [], ◌∷◌}
use gtu_cse344_system_progra.Server.Queue.Defs.{
  Client, live, Malloc, enqueue, enqueue_with, make_room, resize_queue, place, copy_elements,
  queue_constructor, queue_destructor, free_elements,
}
use gtu_cse344_system_progra.Base.Int.{pos, ◌+ℤ◌}
use gtu_cse344_system_progra.Server.Accept
use gtu_cse344_system_progra.Server.Accept.{
  forks, Round, serves, accept_round, handle_request, admit, child_process,
}
use gtu_cse344_system_progra.Server.Exit.{exit_parent}
use gtu_cse344_system_progra.Server.Exit.Signals.{Closes}
use gtu_cse344_system_progra.Server.Setup
use gtu_cse344_system_progra.Server.Setup.{there, Calls}
use gtu_cse344_system_progra.Server.Setup.Ready.{IsRight, served, main-IsRight}
use gtu_cse344_system_progra.Server.Whole.{
  round, serve, happen, at_first, stopped, exit_signals_forked,
}

-- A start at which the FIFO was there already.
abbrev calls : Calls
calls = record {
  argc = 3;
  sigchld = true;
  sigint = true;
  sigtstp = true;
  shm_open = true;
  ftruncate = true;
  mmap = true;
  memory = record { capacity = 0; size = 0; files = [] };
  sem_init = λ n. record { reader = true; writer = true };
  entries = some [];
  stat = some true;
  mkdir = false;
  open_log = true;
  mkfifo = there;
  write_created = true;
  write_started = true;
  open_read = true;
  open_write = true;
}

main-IsRight_example : IsRight calls (Setup.main calls)
main-IsRight_example = main-IsRight calls

abbrev memory : Malloc
memory = record { array = true; client = true }

abbrev a_round : Round
a_round = record {
  fork = true;
  fifo = true;
  fifo_write = true;
  fd_set = true;
  wait_alloc = memory;
  clients_alloc = memory;
}

abbrev five : Client
five = record { pid = 5; try_connect = 0 }

abbrev serving : Accept.Server
serving = record at_first {
  num_clients = pos 1;
  clients = record { front = 0; rear = 0; capacity = 1; size = 1; elements = live five ∷ [] };
  answers = forks 5 ∷ [];
}

serving_reached : serve 2 (round a_round (some five) ∷ []) at_first ≡ serves serving
unfolding serve happen accept_round handle_request admit child_process enqueue enqueue_with
    make_room resize_queue place copy_elements queue_constructor ◌+ℤ◌
serving_reached = refl

exit_signals_forked_example :
    Closes (served calls).log (5 ∷ []) (exit_parent (stopped (served calls) serving))
unfolding queue_destructor free_elements queue_constructor
exit_signals_forked_example =
    exit_signals_forked 2 (round a_round (some five) ∷ []) (served calls) (refl, refl, tt)
      serving_reached (λ e. cc) (λ e. cc)
