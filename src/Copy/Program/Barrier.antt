-- ===== src/Copy/Program/Barrier.antt =====
-- The whole of HW5's copier, from its arguments to the copied tree.
use gtu_cse344_system_progra.Base.{
  ℕ, suc, ◌+◌, ◌≤◌, ◌≡◌, refl, ap, ◌∙◌, sym, subst, Option, List, length, ◌⊎◌, inl, inr, false,
  arith,
}
use gtu_cse344_system_progra.Base.Int.{ℤ, pos, ◌+ℤ◌}
use gtu_cse344_system_progra.Copy.Buffer.Defs.{BufferElement, init_buffer}
use gtu_cse344_system_progra.Copy.Buffer.Inv.{IsValid, init_buffer-IsValid}
use gtu_cse344_system_progra.Copy.Walk.{Name, Entries, Disk, Walk, continues, copy_directory}
use gtu_cse344_system_progra.Copy.Walk.Mirror.{no_walk}
use gtu_cse344_system_progra.Copy.Crew.Complete.{total}
use gtu_cse344_system_progra.Copy.Barrier
use gtu_cse344_system_progra.Copy.Barrier.{hall_at_start, HallRun}
use gtu_cse344_system_progra.Copy.Barrier.Progress.{CanMove, AllLeft, barrier_opens}
use gtu_cse344_system_progra.Copy.Barrier.Store
use gtu_cse344_system_progra.Copy.Barrier.Store.Same.{forget}
use gtu_cse344_system_progra.Copy.Whole.{tree_copied}
use gtu_cse344_system_progra.Copy.Program.{
  Hall, Start, usage, no_memory, starts, argument, with_buffer, with_barrier, main_with_barrier,
}
use gtu_cse344_system_progra.Copy.Program.Runs.{IsFit, meant_of}

abbrev fresh : List Name → ℕ → ℕ → List BufferElement → Hall
fresh argv size workers storage = record {
  parties = pos (suc workers) +ℤ pos 1;
  threads = record {
    buffer = record {
      items = storage;
      capacity = suc size;
      in_index = 0;
      out_index = 0;
      count = 0;
      done = false;
      barrier = 0;
    };
    source_directory = argument argv 3;
    destination_directory = argument argv 4;
    worker_amount = suc workers;
  };
}

pub main_with_barrier-IsFit :
    {atoi : Name → ℤ} {malloc : ℤ → Option (List BufferElement)} {argv : List Name}
    {size workers : ℕ} {storage : List BufferElement}
    → IsFit atoi malloc argv size workers storage
    → main_with_barrier atoi malloc argv ≡ starts (fresh argv size workers storage)
unfolding main_with_barrier with_buffer with_barrier Store.init_buffer
main_with_barrier-IsFit f = rw (f.argc, f.buffer_size, f.worker_amount, f.memory) refl

hall_of : Hall → Start Hall → Hall
hall_of d usage = d
hall_of d no_memory = d
hall_of d (starts t) = t

-- The barrier is for the workers and the manager; and the threads can go on, or all of them have
-- passed it and the tree is copied.
abbrev pub Opens : (BufferElement → ℕ) → List BufferElement → Hall → Barrier.Hall → Type 0
Opens weight meant t h =
    (t.parties ≡ pos (t.threads.worker_amount + 1))
    × (CanMove t.threads.worker_amount h
        ⊎ (AllLeft t.threads.worker_amount h × (total weight h.crew.copied ≡ total weight meant)))

abbrev Claim :
    (BufferElement → ℕ) → Disk → Entries → Walk → Barrier.Hall → List Name → Hall → Type 0
Claim weight disk entries walk h argv t =
    copy_directory disk t.threads.source_directory t.threads.destination_directory entries no_walk
      ≡ continues walk
    → HallRun t.threads.worker_amount (hall_at_start (forget t.threads.buffer) walk.pushed) h
    → Opens weight (meant_of disk argv entries) t h

fresh-Claim :
    (weight : BufferElement → ℕ) (disk : Disk) (entries : Entries) (walk : Walk) (h : Barrier.Hall)
    (argv : List Name) (size workers : ℕ) (storage : List BufferElement)
    → suc size ≤ length storage
    → Claim weight disk entries walk h argv (fresh argv size workers storage)
unfolding ◌+ℤ◌ init_buffer
fresh-Claim weight disk entries walk h argv size workers storage room walked run =
    let n : ℕ = suc workers in
    let v : IsValid (forget (fresh argv size workers storage).threads.buffer) =
      init_buffer-IsValid storage (suc size) (omega arith) room refl in
    (
      ground arith,
      elim (barrier_opens n walk.pushed (omega arith) v refl refl run) [
        | inl m ↦ inl m
        | inr gone ↦ inr (
          gone,
          tree_copied weight disk (argument argv 3) (argument argv 4) entries n walked (omega arith)
              v refl refl run (inl gone.0),
        )
      ],
    )

-- Where five arguments ask for a buffer with room and at least one worker, the memory is there, and
-- the walk over the source directory returns: `main` of HW5 makes its barrier for as many threads as
-- it starts, the manager included; whatever their order, one of the threads can go on, until all
-- have passed the barrier; and then each file of the source tree has been copied exactly once to its
-- place under the destination, and nothing else (for any weight of an element, the sums agree). A
-- file is copied when a worker has gone through its loop over it, whatever read and write return.
pub barrier_program_copies :
    (weight : BufferElement → ℕ) {atoi : Name → ℤ} {malloc : ℤ → Option (List BufferElement)}
    {argv : List Name} {size workers : ℕ} {storage : List BufferElement} {t : Hall} (disk : Disk)
    (entries : Entries) {walk : Walk} {h : Barrier.Hall}
    → IsFit atoi malloc argv size workers storage
    → main_with_barrier atoi malloc argv ≡ starts t
    → copy_directory disk t.threads.source_directory t.threads.destination_directory entries no_walk
      ≡ continues walk
    → HallRun t.threads.worker_amount (hall_at_start (forget t.threads.buffer) walk.pushed) h
    → Opens weight (meant_of disk argv entries) t h
unfolding hall_of
barrier_program_copies weight {argv = argv} {size} {workers} {storage} {t} disk entries {walk} {h}
      fit e =
    subst (Claim weight disk entries walk h argv)
      (ap (hall_of t) (sym (main_with_barrier-IsFit fit) ∙ e))
      (fresh-Claim weight disk entries walk h argv size workers storage fit.room)
