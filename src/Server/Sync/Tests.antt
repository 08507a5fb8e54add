-- ===== src/Server/Sync/Tests.antt =====
-- A table of `sync.c` with two places, and two processes at the lock of a file.
use gtu_cse344_system_progra.Base.Strings.{same_name}
use gtu_cse344_system_progra.Base.{
  ◌≡◌, ◌≢◌, refl, false, true, false, some, List, [], ◌∷◌, arith, ℕ_discrete, ℕ, none, ◌==◌,
  if◌then◌else◌,
}
use gtu_cse344_system_progra.Base.Family.{update}
use gtu_cse344_system_progra.Server.Sync.Table.{
  Name, Shared, SemInit, no_file, ready, init_file, get_file_from, get_file, find_or_add_with,
  find_or_add,
}
use gtu_cse344_system_progra.Server.Sync.Find.{IsValid, hit}
use gtu_cse344_system_progra.Server.Sync.Stable.{serve, find_or_add_stable}
use gtu_cse344_system_progra.Server.Sync.Lock.{
  reading, queued, writing, write_lock, write_enter, System, Step, turn, fresh, Reach, start, next,
}
use gtu_cse344_system_progra.Server.Sync.Safety.{writer_alone, deadlock_occurs}
use gtu_cse344_system_progra.Server.Sync.Overlap
use gtu_cse344_system_progra.Server.Sync.Overlap.{has, Children}
use gtu_cse344_system_progra.Server.Sync.Overlap.Adding.{IsRight}
use gtu_cse344_system_progra.Server.Sync.Overlap.OneEntry.{one_entry}
use gtu_cse344_system_progra.Server.Sync.Overlap.TwoLocks.{two_locks}

abbrev works : SemInit
works = record { reader = true; writer = true }

abbrev fails : SemInit
fails = record { reader = true; writer = false }

abbrev name_a : Name
name_a = b'a' ∷ []

abbrev name_b : Name
name_b = b'b' ∷ []

abbrev one_file : Shared
one_file = record { capacity = 2; size = 1; files = ready name_a ∷ no_file ∷ [] }

abbrev requests : List (SemInit × Name)
requests = (fails, name_b) ∷ (works, name_a) ∷ (works, name_b) ∷ (works, []) ∷ []

one_file-IsValid : IsValid one_file
one_file-IsValid = record { size_in = omega arith; storage = omega arith }

added : (find_or_add works name_b one_file).0 ≡ some 1
unfolding find_or_add find_or_add_with get_file get_file_from same_name init_file
added = refl

find_or_add_stable_example :
    get_file (serve requests (find_or_add works name_b one_file).1) name_b ≡ some 1
find_or_add_stable_example =
    find_or_add_stable works name_b requests one_file one_file-IsValid added

abbrev no_files : Shared
no_files = record { capacity = 2; size = 0; files = no_file ∷ no_file ∷ [] }

no_files-IsValid : IsValid no_files
no_files-IsValid = record { size_in = omega arith; storage = omega arith }

no_files-get_file : get_file no_files name_a ≡ none
unfolding get_file get_file_from
no_files-get_file = refl

two_locks_example :
    (s : Children) × Overlap.Reach 2 (λ i. name_a) no_files s
    × (k : ℕ) × (j : ℕ) × (s.pc 0 ≡ has k)
    × (s.pc 1 ≡ has j)
    × (k ≢ j)
    × IsRight s.table name_a k
    × IsRight s.table name_a j
two_locks_example =
    two_locks 2 name_a (omega arith) no_files-IsValid (omega arith) no_files-get_file

-- Two children want new files where one place is left.
abbrev wanted : ℕ → Name
wanted i = if i == 0 then name_b else []

not_there : get_file one_file name_b ≡ none
unfolding get_file get_file_from same_name
not_there = refl

not_there' : get_file one_file [] ≡ none
unfolding get_file get_file_from same_name
not_there' = refl

one_entry_example :
    (s : Children) × Overlap.Reach 2 wanted one_file s
    × (s.pc 0 ≡ has 1)
    × (s.pc 1 ≡ has 1)
    × IsRight s.table [] 1
    × (hit s.table name_b 1 ≡ false)
    × (s.table.size ≡ 3)
one_entry_example =
    one_entry 2 wanted (omega arith) one_file-IsValid (omega arith) not_there not_there' (λ e. cc)

abbrev with_writer : System
with_writer = record {
  lock = record { reader_count = 0; reader_mutex = 0; writer_mutex = 0 };
  pc = update (update fresh.pc 0 queued) 0 writing;
}

with_writer-Reach : Reach 2 with_writer
unfolding ℕ_discrete
with_writer-Reach =
    next (next start (turn 0 (omega arith) (write_lock (omega arith))))
      (turn 0 (omega arith) (write_enter (omega arith)))

writer_alone_example : (with_writer.pc 1 ≢ reading) × (with_writer.pc 1 ≢ writing)
unfolding ℕ_discrete
writer_alone_example =
    writer_alone with_writer-Reach 0 1 (omega arith) (omega arith) refl (omega arith)

deadlock_occurs_example : (s : System) × Reach 2 s × ((t : System) → ¬ Step 2 s t)
deadlock_occurs_example = deadlock_occurs 2 (omega arith)
