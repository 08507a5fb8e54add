-- ===== src/Copy/Tests.antt =====
-- The walk, the whole copier and the time at concrete inputs.
use gtu_cse344_system_progra.Base.{
  ◌∷◌, inl, ℕ, ◌+◌, ◌≡◌, refl, true, some, [], length, arith, ◌-◌, Option, List, false,
}
use gtu_cse344_system_progra.Base.Strings.{same_name, codes}
use gtu_cse344_system_progra.Copy.Walk.{
  Walk, continues, Entries, end, file, directory, Disk, copy_directory, Name,
}
use gtu_cse344_system_progra.Copy.Crew.Complete.{total}
use gtu_cse344_system_progra.Copy.Crew.Tests.{
  a_file, bare_buffer-IsValid, bare_buffer, last_crew, last_crew-Run,
}
use gtu_cse344_system_progra.Copy.Barrier.Tests.{left_hall, left_hall-HallRun}
use gtu_cse344_system_progra.Copy.Whole.{tree_copied}
use gtu_cse344_system_progra.Copy.Walk.Mirror.{
  listing, mirrored, Pushes, no_walk, copy_directory_mirrors,
}
use gtu_cse344_system_progra.Copy.Time.{Timeval}
use gtu_cse344_system_progra.Base.Int.{ℤ, pos, ◌+ℤ◌}
use gtu_cse344_system_progra.Copy.Buffer.Defs.{
  BufferElement, Buffer, no_element, init_buffer, buffer_push,
}
use gtu_cse344_system_progra.Copy.Crew.Defs.{
  Crew, Run, stop, then, push_waits, push_sleeps, at_start,
}
use gtu_cse344_system_progra.Copy.Program.{
  Threads, with_buffer, main, main_with_barrier, with_barrier,
}
use gtu_cse344_system_progra.Copy.Program.Runs.{IsFit, main-IsFit, Goes, program_copies}
use gtu_cse344_system_progra.Copy.Program
use gtu_cse344_system_progra.Copy.Program.Barrier.{Opens, barrier_program_copies}
use gtu_cse344_system_progra.Copy.Barrier.Store

-- A directory that holds itself, a file, and a directory with a file.
abbrev a_tree : Entries
a_tree =
    directory (codes ".") end (file (codes "a") (directory (codes "d") (file (codes "b") end) end))

abbrev a_disk : Disk
a_disk = record {
  open_dir = λ p. true;
  make_dir = λ p. true;
  open_source = λ p. some (length p);
  open_dest = λ p. some (length p + 1);
}

copy_directory_mirrors_example :
    Pushes a_disk []
      (mirrored a_disk (codes "s") (codes "t") (listing a_tree))
      (copy_directory a_disk (codes "s") (codes "t") a_tree no_walk)
copy_directory_mirrors_example = copy_directory_mirrors a_disk (codes "s") (codes "t") a_tree

abbrev early : Timeval
early = record { tv_sec = 10; tv_usec = 900000 }

abbrev late : Timeval
late = record { tv_sec = 75; tv_usec = 100500 }

abbrev small_disk : Disk
small_disk = record a_disk { open_source = λ p. some 3; open_dest = λ p. some 4 }

abbrev small_walk : Walk
small_walk = record { pushed = a_file ∷ []; made = codes "t" ∷ [] }

small_walked :
    copy_directory small_disk (codes "s") (codes "t") (file (codes "f") end) no_walk
    ≡ continues small_walk
unfolding copy_directory same_name
small_walked = refl

tree_copied_example :
    total (λ x. x.src_fd) left_hall.crew.copied
    ≡ total
        (λ x. x.src_fd)
        (mirrored small_disk (codes "s") (codes "t") (listing (file (codes "f") end)))
tree_copied_example =
    tree_copied (λ x. x.src_fd) small_disk (codes "s") (codes "t") (file (codes "f") end) 1
      small_walked (omega arith) bare_buffer-IsValid refl refl left_hall-HallRun (inl refl)

-- One digit.
abbrev number_of : Name → ℤ
number_of [] = pos 0
number_of (c ∷ s) = pos (c - b'0')

abbrev memory : ℤ → Option (List BufferElement)
memory size = some (no_element ∷ [])

abbrev arguments : Name → List Name
arguments size = codes "copy" ∷ size ∷ codes "1" ∷ codes "s" ∷ codes "t" ∷ []

fit : IsFit number_of memory (arguments (codes "1")) 0 0 (no_element ∷ [])
fit = record {
  argc = refl;
  buffer_size = refl;
  worker_amount = refl;
  memory = refl;
  room = omega arith;
}

abbrev a_start_of : ℕ → Threads Buffer
a_start_of size = record {
  buffer = record bare_buffer { capacity = size };
  source_directory = codes "s";
  destination_directory = codes "t";
  worker_amount = 1;
}

program_copies_example :
    Goes
      (λ x. x.src_fd)
      (a_file ∷ [])
      (mirrored small_disk (codes "s") (codes "t") (listing (file (codes "f") end)))
      1
      5
      last_crew
unfolding main init_buffer with_buffer
program_copies_example =
    program_copies (λ x. x.src_fd) small_disk (file (codes "f") end) {walk = small_walk} fit
      (main-IsFit fit) small_walked last_crew-Run

abbrev sleeping : Crew
sleeping = record (at_start (a_start_of 0).buffer (a_file ∷ [])) { manager = push_sleeps }

sleeping-Run : Run 1 (at_start (a_start_of 0).buffer (a_file ∷ [])) 1 sleeping
unfolding buffer_push
sleeping-Run = then stop (push_waits refl refl refl)

abbrev a_barrier_start : Program.Hall
a_barrier_start = record {
  parties = pos 2;
  threads = record {
    buffer = record {
      items = no_element ∷ [];
      capacity = 1;
      in_index = 0;
      out_index = 0;
      count = 0;
      done = false;
      barrier = 0;
    };
    source_directory = codes "s";
    destination_directory = codes "t";
    worker_amount = 1;
  };
}

barrier_program_copies_example :
    Opens
      (λ x. x.src_fd)
      (mirrored small_disk (codes "s") (codes "t") (listing (file (codes "f") end)))
      a_barrier_start
      left_hall
unfolding main_with_barrier with_buffer with_barrier Store.init_buffer ◌+ℤ◌
barrier_program_copies_example =
    barrier_program_copies (λ x. x.src_fd) {t = a_barrier_start} small_disk (file (codes "f") end)
      {walk = small_walk} fit refl small_walked left_hall-HallRun
