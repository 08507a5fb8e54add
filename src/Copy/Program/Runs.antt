-- ===== src/Copy/Program/Runs.antt =====
-- The whole of HW4's copier, from its arguments to the copied tree.
use gtu_cse344_system_progra.Base.{
  ℕ, suc, ◌+◌, ◌*◌, ◌≤◌, ◌≡◌, refl, ap, ◌∙◌, sym, inl, inr, subst, Option, some, List, [], length,
  ◌⊎◌, false, arith,
}
use gtu_cse344_system_progra.Base.Int.{ℤ, pos}
use gtu_cse344_system_progra.Copy.Buffer.Defs.{BufferElement, Buffer, init_buffer}
use gtu_cse344_system_progra.Copy.Buffer.Inv.{IsValid, init_buffer-IsValid}
use gtu_cse344_system_progra.Copy.Walk.{Name, Entries, Disk, Walk, continues, copy_directory}
use gtu_cse344_system_progra.Copy.Walk.Mirror.{
  listing, mirrored, Pushes, no_walk, copy_directory_mirrors,
}
use gtu_cse344_system_progra.Copy.Crew.Defs.{Crew, Step, Run, at_start}
use gtu_cse344_system_progra.Copy.Crew.Progress.{IsThrough, never_stuck}
use gtu_cse344_system_progra.Copy.Crew.Measure.{runs_end}
use gtu_cse344_system_progra.Copy.Crew.Complete.{total, all_copied}
use gtu_cse344_system_progra.Copy.Program.{
  Threads, Start, usage, no_memory, starts, argument, with_buffer, main,
}

-- Arguments that ask for a buffer with room and a worker, and memory for the buffer.
pub record IsFit (atoi : Name → ℤ) (malloc : ℤ → Option (List BufferElement)) (argv : List Name)
    (size workers : ℕ) (storage : List BufferElement) : Type 0 where
  pub argc : length argv ≡ 5
  pub buffer_size : atoi (argument argv 1) ≡ pos (suc size)
  pub worker_amount : atoi (argument argv 2) ≡ pos (suc workers)
  pub memory : malloc (pos (suc size)) ≡ some storage
  pub room : suc size ≤ length storage

-- The threads that `main` starts then.
abbrev pub fresh : List Name → ℕ → ℕ → List BufferElement → Threads Buffer
fresh argv size workers storage = record {
  buffer = record {
    items = storage;
    capacity = suc size;
    in_index = 0;
    out_index = 0;
    count = 0;
    done = false;
  };
  source_directory = argument argv 3;
  destination_directory = argument argv 4;
  worker_amount = suc workers;
}

pub main-IsFit :
    {atoi : Name → ℤ} {malloc : ℤ → Option (List BufferElement)} {argv : List Name}
    {size workers : ℕ} {storage : List BufferElement}
    → IsFit atoi malloc argv size workers storage
    → main atoi malloc argv ≡ starts (fresh argv size workers storage)
unfolding main with_buffer init_buffer
main-IsFit f = rw (f.argc, f.buffer_size, f.worker_amount, f.memory) refl

threads_of : {B : Type 0} → Threads B → Start (Threads B) → Threads B
threads_of d usage = d
threads_of d no_memory = d
threads_of d (starts t) = t

fresh-IsValid :
    (argv : List Name) (size workers : ℕ) (storage : List BufferElement)
    → suc size ≤ length storage
    → IsValid (fresh argv size workers storage).buffer
unfolding init_buffer
fresh-IsValid argv size workers storage room =
    init_buffer-IsValid storage (suc size) (omega arith) room refl

-- What holds of `k` steps of the threads that lead to `s`, where the manager has to push `files` and
-- the tree has `meant`: their number is bounded, and the threads can go on or are through.
abbrev pub Goes :
    (BufferElement → ℕ) → List BufferElement → List BufferElement → ℕ → ℕ → Crew → Type 0
Goes weight files meant n k s =
    (k ≤ (3 * length files + 1) * (n + 2) + (n + 1))
    × (((u : Crew) × Step n s u) ⊎ (IsThrough n s × (total weight s.copied ≡ total weight meant)))

abbrev pub meant_of : Disk → List Name → Entries → List BufferElement
meant_of disk argv entries = mirrored disk (argument argv 3) (argument argv 4) (listing entries)

-- The same for threads that `main` starts, as far as they are given.
abbrev Claim :
    (BufferElement → ℕ) → Disk → Entries → Walk → ℕ → Crew → List Name → Threads Buffer → Type 0
Claim weight disk entries walk k s argv t =
    copy_directory disk t.source_directory t.destination_directory entries no_walk ≡ continues walk
    → Run t.worker_amount (at_start t.buffer walk.pushed) k s
    → Goes weight walk.pushed (meant_of disk argv entries) t.worker_amount k s

fresh-Claim :
    (weight : BufferElement → ℕ) (disk : Disk) (entries : Entries) (walk : Walk) (k : ℕ) (s : Crew)
    (argv : List Name) (size workers : ℕ) (storage : List BufferElement)
    → suc size ≤ length storage
    → Claim weight disk entries walk k s argv (fresh argv size workers storage)
fresh-Claim weight disk entries walk k s argv size workers storage room walked run =
    let v : IsValid (fresh argv size workers storage).buffer =
      fresh-IsValid argv size workers storage room in
    let n : ℕ = suc workers in
    let same : walk.pushed ≡ meant_of disk argv entries =
      subst (Pushes disk [] (meant_of disk argv entries)) walked
        (copy_directory_mirrors disk (argument argv 3) (argument argv 4) entries) in
    (
      runs_end n walk.pushed v refl refl run,
      elim (never_stuck n walk.pushed (omega arith) v refl refl run) [
        | inl m ↦ inl m
        | inr through ↦ inr (
          through,
          all_copied weight n walk.pushed (omega arith) v refl refl run through
              ∙ ap (total weight) same,
        )
      ],
    )

-- Where five arguments ask for a buffer with room and at least one worker, the memory is there, and
-- the walk over the source directory returns: the threads that `main` starts take a bounded number of
-- steps, whatever their order; they can always go on, until they are through; and then each file of
-- the source tree has been copied exactly once to its place under the destination, and nothing else
-- (for any weight of an element, the sums agree). A file is copied when a worker has gone through its
-- loop over it, whatever read and write return.
pub program_copies :
    (weight : BufferElement → ℕ) {atoi : Name → ℤ} {malloc : ℤ → Option (List BufferElement)}
    {argv : List Name} {size workers : ℕ} {storage : List BufferElement} {t : Threads Buffer}
    (disk : Disk) (entries : Entries) {walk : Walk} {k : ℕ} {s : Crew}
    → IsFit atoi malloc argv size workers storage
    → main atoi malloc argv ≡ starts t
    → copy_directory disk t.source_directory t.destination_directory entries no_walk
      ≡ continues walk
    → Run t.worker_amount (at_start t.buffer walk.pushed) k s
    → Goes weight walk.pushed (meant_of disk argv entries) t.worker_amount k s
unfolding threads_of
program_copies weight {argv = argv} {size} {workers} {storage} {t} disk entries {walk} {k} {s} fit
      e =
    subst (Claim weight disk entries walk k s argv) (ap (threads_of t) (sym (main-IsFit fit) ∙ e))
      (fresh-Claim weight disk entries walk k s argv size workers storage fit.room)
