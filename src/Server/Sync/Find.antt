-- ===== src/Server/Sync/Find.antt =====
-- A file keeps the entry of the table, and so the lock, under which it was first found.
use gtu_cse344_system_progra.Base.Strings.{same_name, same_name_self}
use gtu_cse344_system_progra.Base.{
  dec_lt, subst, ℕ, zero, suc, ◌+◌, ◌≤◌, ◌<◌, ◌≡◌, ap, sym, ◌∙◌, Bool, true, false, Option, some,
  none, get_or, set, length, length-set, arith, Bool-cases, inl, inr,
}
use gtu_cse344_system_progra.Base.Ring.{get_or-set_other, get_or-set_at}
use gtu_cse344_system_progra.Server.Sync.Table.{
  Name, File, Shared, SemInit, no_file, named, read_ready, ready, init_file, get_file_from,
  get_file,
}

pub record IsValid (sdir : Shared) : Type 0 where
  pub size_in : sdir.size ≤ sdir.capacity
  pub storage : sdir.capacity ≤ length sdir.files

-- The test of the loop of `get_file`.
abbrev pub hit : Shared → Name → ℕ → Bool
hit sdir file i = same_name (get_or sdir.files i no_file).name file

-- What a search from index `i` over `n` entries says: the first hit, or that there is none.
abbrev pub Found : Shared → Name → ℕ → ℕ → Option ℕ → Type 0
Found sdir file i n none = (j : ℕ) → i ≤ j → j < i + n → hit sdir file j ≡ false
Found sdir file i n (some k) =
    (i ≤ k)
    × (k < i + n)
    × (hit sdir file k ≡ true)
    × ((j : ℕ) → i ≤ j → j < k → hit sdir file j ≡ false)

get_file_from-Found :
    (sdir : Shared) (file : Name) (i n : ℕ) → Found sdir file i n (get_file_from sdir file i n)
unfolding get_file_from
get_file_from-Found sdir file i zero = λ j from to. absurd (omega arith)
get_file_from-Found sdir file i (suc n) = elim (Bool-cases (hit sdir file i)) [
  | inl e ↦ rw e (omega arith, omega arith, e, λ j from to. absurd (omega arith))
  | inr e ↦
      rw e (widen e (get_file_from sdir file (i + 1) n) (get_file_from-Found sdir file (i + 1) n))
]
  where
    miss : hit sdir file i ≡ false → (j : ℕ) → i ≡ j → hit sdir file j ≡ false
    miss e j same = ap (hit sdir file) (sym same) ∙ e

    widen :
        hit sdir file i ≡ false
        → (o : Option ℕ) → Found sdir file (i + 1) n o
        → Found sdir file i (suc n) o
    widen e none f = λ j from to. elim (dec_lt i j) [
      | yes later ↦ f j (omega arith) (omega arith)
      | no here ↦ miss e j (omega arith)
    ]
    widen e (some k) f = (
      omega (arith, f.0),
      omega (arith, f.1),
      f.2,
      λ j from to. elim (dec_lt i j) [
        | yes later ↦ f.3 j (omega arith) to
        | no here ↦ miss e j (omega arith)
      ],
    )

-- `get_file` returns the first entry with the given name among those in use, and NULL exactly when
-- no entry in use has it.
pub get_file-Found :
    (sdir : Shared) (file : Name) → Found sdir file 0 sdir.size (get_file sdir file)
unfolding get_file
get_file-Found sdir file = get_file_from-Found sdir file 0 sdir.size

-- A search is decided by its result: there is one first hit.
search_unique :
    (sdir : Shared) (file : Name) (i n k : ℕ) (o : Option ℕ)
    → Found sdir file i n o
    → Found sdir file i n (some k)
    → o ≡ some k
search_unique sdir file i n k none f g = cc (f k g.0 g.1, g.2)
search_unique sdir file i n k (some k') f g = ground (arith, f.0, g.0, f.2, g.2, f.3 k, g.3 k')

-- `init_file` changes no entry in use, and takes none out of use.
pub init_file-hit :
    (sem : SemInit) (new file : Name) (sdir : Shared) (j : ℕ)
    → j < sdir.size
    → hit (init_file sem new sdir).1 file j ≡ hit sdir file j
unfolding init_file
init_file-hit sem new file sdir j lt = ground (
  arith,
  other (named new (get_or sdir.files sdir.size no_file)),
  other (read_ready new (get_or sdir.files sdir.size no_file)),
  other (ready new),
)
  where
    other : (f : File) → get_or (set sdir.files sdir.size f) j no_file ≡ get_or sdir.files j no_file
    other f = get_or-set_other sdir.files f sdir.size j no_file (omega arith)

pub size-init_file :
    (sem : SemInit) (new : Name) (sdir : Shared) → sdir.size ≤ (init_file sem new sdir).1.size
unfolding init_file
size-init_file sem new sdir = ground arith

-- The table never holds more than `capacity` files, and no write goes outside its array.
pub init_file-IsValid :
    (sem : SemInit) (new : Name) (sdir : Shared) → IsValid sdir → IsValid (init_file sem new sdir).1
unfolding init_file
init_file-IsValid sem new sdir v = ground (
  arith,
  length-set sdir.files sdir.size (named new (get_or sdir.files sdir.size no_file)),
  length-set sdir.files sdir.size (read_ready new (get_or sdir.files sdir.size no_file)),
  length-set sdir.files sdir.size (ready new),
)

pub init_file-get_file :
    (sem : SemInit) (new file : Name) (sdir : Shared) {k : ℕ}
    → get_file sdir file ≡ some k
    → get_file (init_file sem new sdir).1 file ≡ some k
init_file-get_file sem new file sdir {k} e =
    let sdir' = (init_file sem new sdir).1 in
    search_unique sdir' file 0 sdir'.size k (get_file sdir' file) (get_file-Found sdir' file) (
      omega arith,
      omega (arith, found.1, size-init_file sem new sdir),
      init_file-hit sem new file sdir k (omega (arith, found.1)) ∙ found.2,
      λ j from to. init_file-hit sem new file sdir j (omega (arith, found.1)) ∙ found.3 j from to,
    )
  where
    found : Found sdir file 0 sdir.size (some k)
    found = subst (Found sdir file 0 sdir.size) e (get_file-Found sdir file)

pub init_file-end :
    (sem : SemInit) (file : Name) (sdir : Shared) {k : ℕ}
    → IsValid sdir
    → (init_file sem file sdir).0 ≡ some k
    → (k ≡ sdir.size)
      × (k < (init_file sem file sdir).1.size)
      × (hit (init_file sem file sdir).1 file k ≡ true)
unfolding init_file
init_file-end sem file sdir {k} v made =
    ground (arith, get_or-set_at sdir.files (ready file) sdir.size k no_file, same_name_self file)

-- A successful `init_file` adds the file at the index that it returns.
pub init_file_new :
    (sem : SemInit) (file : Name) (sdir : Shared) {k : ℕ}
    → IsValid sdir
    → get_file sdir file ≡ none
    → (init_file sem file sdir).0 ≡ some k
    → get_file (init_file sem file sdir).1 file ≡ some k
init_file_new sem file sdir {k} v e made =
    let sdir' = (init_file sem file sdir).1 in
    search_unique sdir' file 0 sdir'.size k (get_file sdir' file) (get_file-Found sdir' file) (
      omega arith,
      omega (arith, at_end.1),
      at_end.2,
      λ j from to.
          init_file-hit sem file file sdir j (omega (arith, at_end.0))
          ∙ missed j from (omega (arith, at_end.0)),
    )
  where
    missed : Found sdir file 0 sdir.size none
    missed = subst (Found sdir file 0 sdir.size) e (get_file-Found sdir file)

    at_end :
        (k ≡ sdir.size)
        × (k < (init_file sem file sdir).1.size)
        × (hit (init_file sem file sdir).1 file k ≡ true)
    at_end = init_file-end sem file sdir v made
