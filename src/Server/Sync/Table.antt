-- ===== src/Server/Sync/Table.antt =====
-- `Shared`, `init_file`, `initialize` and `get_file` of Midterm/src/sync.c.
use gtu_cse344_system_progra.Base.Strings.{same_name}
use gtu_cse344_system_progra.Base.{
  ℕ, zero, suc, ◌+◌, Bool, true, false, not, ◌||◌, Option, some, none, List, [], ◌∷◌, ◌==◌, get_or,
  set, if◌then◌else◌,
}
use gtu_cse344_system_progra.Base.Int.{ℤ, pos}

-- A file name is the list of its bytes.
abbrev pub Name : Type 0
Name = List ℕ

-- The two semaphores by their values.
pub record File : Type 0 where
  pub name : Name
  pub reader_count : ℤ
  pub reader_mutex : ℕ
  pub writer_mutex : ℕ

pub record Shared : Type 0 where
  pub capacity : ℕ
  pub size : ℕ
  pub files : List File

-- Whether the two calls of `sem_init` succeed.
pub record SemInit : Type 0 where
  pub reader : Bool
  pub writer : Bool

-- What an index outside the array reads.
abbrev pub no_file : File
no_file = record { name = []; reader_count = pos 0; reader_mutex = 0; writer_mutex = 0 }

-- The entry after `strcpy`, after the first and after the second `sem_init`.
abbrev pub named : Name → File → File
named filename f = record f { name = filename }

abbrev pub read_ready : Name → File → File
read_ready filename f = record f { name = filename; reader_mutex = 1 }

abbrev pub ready : Name → File
ready filename = record {
  name = filename;
  reader_count = pos 0;
  reader_mutex = 1;
  writer_mutex = 1;
}

write_file : Shared → (File → File) → Shared
write_file sdir f = record sdir {
  files = set sdir.files sdir.size (f (get_or sdir.files sdir.size no_file));
}

-- The returned pointer is an index of `files`; `none` is NULL.
unfoldable pub init_file : SemInit → Name → Shared → Option ℕ × Shared
unfolding write_file
init_file sem filename sdir =
    if sdir.size == sdir.capacity
    then (none, sdir)
    else if not sem.reader
    then (none, write_file sdir (named filename))
    else if not sem.writer
    then (none, write_file sdir (read_ready filename))
    else (
      some sdir.size,
      record sdir { files = set sdir.files sdir.size (ready filename); size = sdir.size + 1 },
    )

-- "." and ".."
unfoldable pub is_dot_entry : Name → Bool
unfolding same_name
is_dot_entry n = same_name n (b'.' ∷ []) || same_name n (b'.' ∷ b'.' ∷ [])

-- The loop over the entries of the directory: an entry that cannot be added is skipped.
unfoldable pub initialize_entries : (Name → SemInit) → List Name → Shared → Shared
unfolding is_dot_entry init_file
initialize_entries sems [] sdir = sdir
initialize_entries sems (n ∷ ns) sdir =
    initialize_entries sems ns (if is_dot_entry n then sdir else (init_file (sems n) n sdir).1)

-- `none` for the entries when `opendir` fails; the return value is `true` for 0.
unfoldable pub initialize : (Name → SemInit) → Option (List Name) → Shared → Bool × Shared
unfolding initialize_entries
initialize sems none sdir = (false, record sdir { capacity = 64; size = 0 })
initialize sems (some ns) sdir =
    (true, initialize_entries sems ns (record sdir { capacity = 64; size = 0 }))

-- The loop of `get_file` from index `i`, with `n` rounds left.
unfoldable pub get_file_from : Shared → Name → ℕ → ℕ → Option ℕ
unfolding same_name
get_file_from sdir file i zero = none
get_file_from sdir file i (suc n) =
    let rest = get_file_from sdir file (i + 1) n in
    if same_name (get_or sdir.files i no_file).name file then some i else rest

unfoldable pub get_file : Shared → Name → Option ℕ
unfolding get_file_from
get_file sdir file = get_file_from sdir file 0 sdir.size

-- `(sfile = get_file(sd, file_name)) == NULL && (sfile = init_file(file_name, sd)) == NULL`, by
-- which the server finds the lock of a file (server.c).
unfoldable pub find_or_add_with : SemInit → Name → Shared → Option ℕ → Option ℕ × Shared
find_or_add_with sem file sdir (some k) = (some k, sdir)
find_or_add_with sem file sdir none = init_file sem file sdir

unfoldable pub find_or_add : SemInit → Name → Shared → Option ℕ × Shared
unfolding find_or_add_with
find_or_add sem file sdir = find_or_add_with sem file sdir (get_file sdir file)
