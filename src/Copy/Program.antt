-- ===== src/Copy/Program.antt =====
-- `main` of the two copiers, HW4/src/210104004023_main.c and HW5/src/210104004023_main.c, from the
-- arguments to the start of the threads. `atoi` and `malloc` are parameters; `malloc` takes the
-- number of elements, and is taken to return NULL for a negative one.
pub mod Runs
pub mod NoRoom
pub mod Barrier
use gtu_cse344_system_progra.Base.{
  ℕ, Bool, not, Option, none, some, List, length, get_or, ◌==◌, if◌then◌else◌,
}
use gtu_cse344_system_progra.Base.Int.{ℤ, pos, pos_part, ◌+ℤ◌}
use gtu_cse344_system_progra.Copy.Buffer.Defs
use gtu_cse344_system_progra.Copy.Buffer.Defs.{BufferElement, init_buffer}
use gtu_cse344_system_progra.Copy.Walk.{Name}
use gtu_cse344_system_progra.Copy.Barrier.Store

-- The arguments of the manager's thread, the buffer, and how many worker threads are started.
pub record Threads (Buffer : Type 0) : Type 0 where
  pub buffer : Buffer
  pub source_directory : Name
  pub destination_directory : Name
  pub worker_amount : ℕ

-- EXIT_FAILURE for want of arguments or of memory, or the threads.
pub data Start (T : Type 0) : Type 0 where
  usage no_memory : Start T
  starts : T → Start T

abbrev pub argument : List Name → ℕ → Name
argument argv i = get_or argv i List.[]

unfoldable pub with_buffer :
    {Buffer : Type 0} → List Name → ℤ → Option Buffer → Start (Threads Buffer)
with_buffer argv worker_amount none = no_memory
with_buffer argv worker_amount (some b) = starts (record {
  buffer = b;
  source_directory = argument argv 3;
  destination_directory = argument argv 4;
  worker_amount = pos_part worker_amount;
})

unfoldable pub main :
    (Name → ℤ) → (ℤ → Option (List BufferElement)) → List Name → Start (Threads Defs.Buffer)
unfolding with_buffer
main atoi malloc argv =
    if not (length argv == 5)
    then usage
    else let buffer_size = atoi (argument argv 1) in
      let worker_amount = atoi (argument argv 2) in
      with_buffer argv worker_amount (init_buffer (malloc buffer_size) (pos_part buffer_size))

-- For how many threads the barrier was made, with the threads. The program has one barrier.
pub record Hall : Type 0 where
  pub parties : ℤ
  pub threads : Threads Store.Buffer

unfoldable pub with_barrier : ℤ → Start (Threads Store.Buffer) → Start Hall
with_barrier parties usage = usage
with_barrier parties no_memory = no_memory
with_barrier parties (starts t) = starts (record { parties = parties; threads = t })

unfoldable pub main_with_barrier :
    (Name → ℤ) → (ℤ → Option (List BufferElement)) → List Name → Start Hall
unfolding with_buffer with_barrier
main_with_barrier atoi malloc argv =
    if not (length argv == 5)
    then usage
    else let buffer_size = atoi (argument argv 1) in
      let worker_amount = atoi (argument argv 2) in
      with_barrier (worker_amount +ℤ pos 1) (
        with_buffer argv worker_amount
          (Store.init_buffer (malloc buffer_size) (pos_part buffer_size) 0))
