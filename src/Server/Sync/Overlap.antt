-- ===== src/Server/Sync/Overlap.antt =====
-- Requests to the table that overlap: each child of the server looks its file up by `get_file` and,
-- where it does not find it, adds it by `init_file` (Midterm/src/server.c and sync.c), and other
-- children come in between, since nothing guards the table. `init_file` goes on in steps: its test of
-- the size, `strcpy`, the two `sem_init`, the reset of the count, and the load and the store of
-- `size += 1`. The search of `get_file` is one step.
pub mod Adding
pub mod TwoLocks
pub mod OneEntry
use gtu_cse344_system_progra.Base.{ℕ, ◌+◌, ◌<◌, ◌≡◌, ◌≢◌, Option, none, some, List, get_or, set}
use gtu_cse344_system_progra.Base.Int.{pos}
use gtu_cse344_system_progra.Base.Family.{update}
use gtu_cse344_system_progra.Server.Sync.Table.{Name, File, Shared, no_file, named, get_file}

-- Where a child is. The number is the index of `file` in `files`; `stores` also has the size that it
-- has loaded.
pub data Pc : Type 0 where
  looks adds fails : Pc
  copies inits_reader inits_writer resets loads has : ℕ → Pc
  stores : ℕ → ℕ → Pc

pub record Children : Type 0 where
  pub table : Shared
  pub pc : ℕ → Pc

-- A change of `files[k]`.
abbrev pub modify : ℕ → (File → File) → List File → List File
modify k f files = set files k (f (get_or files k no_file))

abbrev pub changed : Children → ℕ → (File → File) → ℕ → Pc → Children
changed s k f i p = record {
  table = record (s.table) { files = modify k f s.table.files };
  pc = update s.pc i p;
}

abbrev pub with_reader : File → File
with_reader f = record f { reader_mutex = 1 }

abbrev pub with_writer : File → File
with_writer f = record f { writer_mutex = 1 }

abbrev pub with_count : File → File
with_count f = record f { reader_count = pos 0 }

-- Child `i` of `n` wants `file i`.
pub data Step (n : ℕ) (file : ℕ → Name) (s : Children) : Children → Type 0 where
  find :
      (i : ℕ) {k : ℕ}
      → i < n
      → s.pc i ≡ looks
      → get_file s.table (file i) ≡ some k
      → Step n file s (record s { pc = update s.pc i (has k) })
  miss :
      (i : ℕ)
      → i < n
      → s.pc i ≡ looks
      → get_file s.table (file i) ≡ none
      → Step n file s (record s { pc = update s.pc i adds })
  full :
      (i : ℕ)
      → i < n
      → s.pc i ≡ adds
      → s.table.size ≡ s.table.capacity
      → Step n file s (record s { pc = update s.pc i fails })
  point :
      (i : ℕ)
      → i < n
      → s.pc i ≡ adds
      → s.table.size ≢ s.table.capacity
      → Step n file s (record s { pc = update s.pc i (copies s.table.size) })
  copy :
      (i : ℕ) {k : ℕ}
      → i < n
      → s.pc i ≡ copies k
      → Step n file s (changed s k (named (file i)) i (inits_reader k))
  init_reader :
      (i : ℕ) {k : ℕ}
      → i < n
      → s.pc i ≡ inits_reader k
      → Step n file s (changed s k with_reader i (inits_writer k))
  init_writer :
      (i : ℕ) {k : ℕ}
      → i < n
      → s.pc i ≡ inits_writer k
      → Step n file s (changed s k with_writer i (resets k))
  reader_fails :
      (i : ℕ) {k : ℕ}
      → i < n
      → s.pc i ≡ inits_reader k
      → Step n file s (record s { pc = update s.pc i fails })
  writer_fails :
      (i : ℕ) {k : ℕ}
      → i < n
      → s.pc i ≡ inits_writer k
      → Step n file s (record s { pc = update s.pc i fails })
  reset :
      (i : ℕ) {k : ℕ}
      → i < n
      → s.pc i ≡ resets k
      → Step n file s (changed s k with_count i (loads k))
  load :
      (i : ℕ) {k : ℕ}
      → i < n
      → s.pc i ≡ loads k
      → Step n file s (record s { pc = update s.pc i (stores k s.table.size) })
  store :
      (i : ℕ) {k m : ℕ}
      → i < n
      → s.pc i ≡ stores k m
      → Step n file s
          (record { table = record (s.table) { size = m + 1 }; pc = update s.pc i (has k) })

abbrev pub at_start : Shared → Children
at_start table = record { table = table; pc = λ i. looks }

pub data Reach (n : ℕ) (file : ℕ → Name) (table : Shared) : Children → Type 0 where
  start : Reach n file table (at_start table)
  next : {s t : Children} → Reach n file table s → Step n file s t → Reach n file table t
