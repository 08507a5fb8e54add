-- ===== src/Server/Sync/Stable.antt =====
-- The requests of the server's children on the table, one after the other.
use gtu_cse344_system_progra.Base.{◌≡◌, ℕ, some, List, [], ◌∷◌, Option-cases, inl, inr, ◌∙◌}
use gtu_cse344_system_progra.Server.Sync.Table.{Name, Shared, SemInit, get_file, find_or_add}
use gtu_cse344_system_progra.Server.Sync.Find.{
  IsValid, init_file-IsValid, init_file-get_file, init_file_new,
}

-- The table after a list of requests.
unfoldable pub serve : List (SemInit × Name) → Shared → Shared
serve [] sdir = sdir
serve ((sem, file) ∷ rs) sdir = serve rs (find_or_add sem file sdir).1

find_or_add-IsValid :
    (sem : SemInit) (file : Name) (sdir : Shared)
    → IsValid sdir
    → IsValid (find_or_add sem file sdir).1
unfolding find_or_add
find_or_add-IsValid sem file sdir v = elim (Option-cases (get_file sdir file)) [
  | inl e ↦ rw e (init_file-IsValid sem file sdir v)
  | inr (k, e) ↦ rw e v
]

find_or_add-get_file :
    (sem : SemInit) (new file : Name) (sdir : Shared) {k : ℕ}
    → get_file sdir file ≡ some k
    → get_file (find_or_add sem new sdir).1 file ≡ some k
unfolding find_or_add
find_or_add-get_file sem new file sdir h = elim (Option-cases (get_file sdir new)) [
  | inl e ↦ rw e (init_file-get_file sem new file sdir h)
  | inr (k, e) ↦ rw e h
]

find_or_add_found :
    (sem : SemInit) (file : Name) (sdir : Shared) {k : ℕ}
    → IsValid sdir
    → (find_or_add sem file sdir).0 ≡ some k
    → get_file (find_or_add sem file sdir).1 file ≡ some k
unfolding find_or_add
find_or_add_found sem file sdir v h = elim (Option-cases (get_file sdir file)) [
  | inl e ↦ rw e (init_file_new sem file sdir v e (rw e at h))
  | inr (j, e) ↦ rw e (e ∙ (rw e at h))
]

serve-get_file :
    (rs : List (SemInit × Name)) (file : Name) (sdir : Shared) {k : ℕ}
    → get_file sdir file ≡ some k
    → get_file (serve rs sdir) file ≡ some k
unfolding serve
serve-get_file [] file sdir h = h
serve-get_file ((sem, new) ∷ rs) file sdir h =
    serve-get_file rs file (find_or_add sem new sdir).1 (find_or_add-get_file sem new file sdir h)

-- In a valid table, the entry that a child is given for a file is the one that every later request
-- for that file finds, whatever requests come between and whether those succeed: all children use
-- one lock per file, as long as the requests do not overlap.
pub find_or_add_stable :
    (sem : SemInit) (file : Name) (rs : List (SemInit × Name)) (sdir : Shared) {k : ℕ}
    → IsValid sdir
    → (find_or_add sem file sdir).0 ≡ some k
    → get_file (serve rs (find_or_add sem file sdir).1) file ≡ some k
find_or_add_stable sem file rs sdir v h =
    serve-get_file rs file (find_or_add sem file sdir).1 (find_or_add_found sem file sdir v h)

-- In a valid table, no request, failed or not, leads out of the array or past its capacity.
pub serve-IsValid :
    (rs : List (SemInit × Name)) (sdir : Shared) → IsValid sdir → IsValid (serve rs sdir)
unfolding serve
serve-IsValid [] sdir v = v
serve-IsValid ((sem, file) ∷ rs) sdir v =
    serve-IsValid rs (find_or_add sem file sdir).1 (find_or_add-IsValid sem file sdir v)
