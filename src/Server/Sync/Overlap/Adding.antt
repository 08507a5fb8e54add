-- ===== src/Server/Sync/Overlap/Adding.antt =====
-- The run of `init_file` (Midterm/src/sync.c) by one child while the others stand still.
use gtu_cse344_system_progra.Base.{true}
use gtu_cse344_system_progra.Base.{
  ℕ, ◌+◌, ◌<◌, ◌≡◌, ◌≢◌, refl, ap, ◌∙◌, List, get_or, length, length-set, arith,
}
use gtu_cse344_system_progra.Base.Ring.{get_or-set_other, get_or-set_at}
use gtu_cse344_system_progra.Base.Family.{update}
use gtu_cse344_system_progra.Server.Sync.Table.{Name, File, Shared, no_file, named}
use gtu_cse344_system_progra.Server.Sync.Find.{hit}
use gtu_cse344_system_progra.Server.Sync.Overlap.{
  Pc, copies, inits_reader, inits_writer, resets, loads, stores, has, Children, modify, changed,
  with_reader, with_writer, with_count, copy, init_reader, init_writer, reset, load, store, Reach,
  next,
}

-- The entry that a child has, as it must be for the lock to be the one of the file.
abbrev pub IsRight : Shared → Name → ℕ → Type 0
IsRight table file k = (k < table.size) × (hit table file k ≡ true)

abbrev pub entry_files : Name → ℕ → List File → List File
entry_files file k files =
    modify k with_count (modify k with_writer (modify k with_reader (modify k (named file) files)))

-- The table after a whole run of `init_file` that has begun at index `k`.
abbrev pub grown : Name → ℕ → Shared → Shared
grown file k t = record t { files = entry_files file k t.files; size = t.size + 1 }

get_or-modify :
    (files : List File) (k : ℕ) (f : File → File)
    → k < length files
    → get_or (modify k f files) k no_file ≡ f (get_or files k no_file)
get_or-modify files k f lt = get_or-set_at files (f (get_or files k no_file)) k k no_file refl lt

length-modify :
    (files : List File) (k : ℕ) (f : File → File) → length (modify k f files) ≡ length files
length-modify files k f = length-set files k (f (get_or files k no_file))

name-modify :
    (files : List File) (k : ℕ) (f : File → File)
    → ((e : File) → (f e).name ≡ e.name)
    → k < length files
    → (get_or (modify k f files) k no_file).name ≡ (get_or files k no_file).name
name-modify files k f keeps lt =
    ap (λ (e : File). e.name) (get_or-modify files k f lt) ∙ keeps (get_or files k no_file)

pub name-grown :
    (file : Name) (k : ℕ) (t : Shared)
    → k < length t.files
    → (get_or (grown file k t).files k no_file).name ≡ file
name-grown file k t lt =
    let f1 = modify k (named file) t.files in
    let l1 : length f1 ≡ length t.files = length-modify t.files k (named file) in
    let f2 = modify k with_reader f1 in
    let l2 : length f2 ≡ length f1 = length-modify f1 k with_reader in
    let f3 = modify k with_writer f2 in
    let l3 : length f3 ≡ length f2 = length-modify f2 k with_writer in
    name-modify f3 k with_count (λ e. refl) (omega (arith, l1, l2, l3))
    ∙ name-modify f2 k with_writer (λ e. refl) (omega (arith, l1, l2))
    ∙ name-modify f1 k with_reader (λ e. refl) (omega (arith, l1))
    ∙ ap (λ (e : File). e.name) (get_or-modify t.files k (named file) lt)

pub length-grown :
    (file : Name) (k : ℕ) (t : Shared) → length (grown file k t).files ≡ length t.files
length-grown file k t =
    let f1 = modify k (named file) t.files in
    let f2 = modify k with_reader f1 in
    length-modify (modify k with_writer f2) k with_count
    ∙ length-modify f2 k with_writer
    ∙ length-modify f1 k with_reader
    ∙ length-modify t.files k (named file)

other-modify :
    (files : List File) (k j : ℕ) (f : File → File)
    → k ≢ j
    → get_or (modify k f files) j no_file ≡ get_or files j no_file
other-modify files k j f ne = get_or-set_other files (f (get_or files k no_file)) k j no_file ne

pub other-grown :
    (file : Name) (k j : ℕ) (t : Shared)
    → k ≢ j
    → get_or (grown file k t).files j no_file ≡ get_or t.files j no_file
other-grown file k j t ne =
    let f1 = modify k (named file) t.files in
    let f2 = modify k with_reader f1 in
    other-modify (modify k with_writer f2) k j with_count ne
    ∙ other-modify f2 k j with_writer ne
    ∙ other-modify f1 k j with_reader ne
    ∙ other-modify t.files k j (named file) ne

pub update-at : (pc : ℕ → Pc) (i : ℕ) (p : Pc) → update pc i p i ≡ p
update-at pc i p = ground arith

pub update-other : (pc : ℕ → Pc) (i j : ℕ) (p : Pc) → i ≢ j → update pc i p j ≡ pc j
update-other pc i j p ne = ground arith

-- A state in which one child has ended `init_file`, from the state in which it was at `copies k`.
pub record Added (n : ℕ) (file : ℕ → Name) (table : Shared) (s : Children) (i k : ℕ) : Type 0 where
  pub state : Children
  pub reached : Reach n file table state
  pub grows : state.table ≡ grown (file i) k s.table
  pub gets : state.pc i ≡ has k
  pub others : (j : ℕ) → i ≢ j → state.pc j ≡ s.pc j

pub add_run :
    {n : ℕ} {file : ℕ → Name} {table : Shared} (s : Children) (i k : ℕ)
    → i < n
    → s.pc i ≡ copies k
    → Reach n file table s
    → Added n file table s i k
add_run {n} {file} {table} s i k lt e r =
    let s1 = changed s k (named (file i)) i (inits_reader k) in
    let s2 = changed s1 k with_reader i (inits_writer k) in
    let s3 = changed s2 k with_writer i (resets k) in
    let s4 = changed s3 k with_count i (loads k) in
    let s5 : Children = record s4 { pc = update s4.pc i (stores k s4.table.size) } in
    let r1 : Reach n file table s1 = next r (copy i lt e) in
    let r2 : Reach n file table s2 =
      next r1 (init_reader i lt (update-at s.pc i (inits_reader k))) in
    let r3 : Reach n file table s3 =
      next r2 (init_writer i lt (update-at s1.pc i (inits_writer k))) in
    let r4 : Reach n file table s4 = next r3 (reset i lt (update-at s2.pc i (resets k))) in
    let r5 : Reach n file table s5 = next r4 (load i lt (update-at s3.pc i (loads k))) in
    record {
      state = record {
        table = record (s5.table) { size = s4.table.size + 1 };
        pc = update s5.pc i (has k);
      };
      reached = next r5 (store i lt (update-at s4.pc i (stores k s4.table.size)));
      grows = refl;
      gets = update-at s5.pc i (has k);
      others = λ j ne.
          update-other s5.pc i j (has k) ne
          ∙ update-other s4.pc i j (stores k s4.table.size) ne
          ∙ update-other s3.pc i j (loads k) ne
          ∙ update-other s2.pc i j (resets k) ne
          ∙ update-other s1.pc i j (inits_writer k) ne
          ∙ update-other s.pc i j (inits_reader k) ne;
    }
