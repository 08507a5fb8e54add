-- ===== src/Server/Sync/Overlap/TwoLocks.antt =====
-- Two children that add the same file (Midterm/src/server.c and sync.c).
use gtu_cse344_system_progra.Base.{length}
use gtu_cse344_system_progra.Base.{true}
use gtu_cse344_system_progra.Base.Strings.{same_name, same_name_self}
use gtu_cse344_system_progra.Base.{
  ℕ, ◌+◌, ◌≤◌, ◌≡◌, ◌≢◌, refl, ap, ◌∙◌, none, get_or, ℕ_discrete, arith,
}
use gtu_cse344_system_progra.Base.Family.{update}
use gtu_cse344_system_progra.Server.Sync.Table.{Name, File, Shared, no_file, get_file}
use gtu_cse344_system_progra.Server.Sync.Find.{IsValid, hit}
use gtu_cse344_system_progra.Server.Sync.Overlap.{
  looks, adds, copies, has, Children, miss, point, Reach, start, next,
}
use gtu_cse344_system_progra.Server.Sync.Overlap.Adding.{
  IsRight, name-grown, length-grown, other-grown, update-at, update-other, Added, add_run,
}

-- Both have looked, and no one has added yet.
abbrev pub missed : Shared → Children
missed table = record { table = table; pc = update (update (λ i. looks) 0 adds) 1 adds }

pub missed-Reach :
    (n : ℕ) (file : ℕ → Name) (table : Shared)
    → 2 ≤ n
    → get_file table (file 0) ≡ none
    → get_file table (file 1) ≡ none
    → Reach n file table (missed table)
unfolding ℕ_discrete
missed-Reach n file table two a b =
    let r1 : Reach n file table (record { table = table; pc = update (λ i. looks) 0 adds }) =
      next start (miss 0 (omega arith) refl a) in
    next r1 (miss 1 (omega arith) refl b)

-- The name that a table has at an index.
abbrev pub name_at : ℕ → Shared → Name
name_at k t = (get_or t.files k no_file).name

pub hit-name_at : (k : ℕ) (t : Shared) (file : Name) → name_at k t ≡ file → hit t file k ≡ true
hit-name_at k t file e = ap (λ n. same_name n file) e ∙ same_name_self file

-- Two children, or more, of which two want a file that a valid table with room for two more does not
-- have yet: they can end with two entries in use that both name the file, and so with two locks for
-- it.
pub two_locks :
    (n : ℕ) (file : Name) {table : Shared}
    → 2 ≤ n
    → IsValid table
    → table.size + 2 ≤ table.capacity
    → get_file table file ≡ none
    → (s : Children) × Reach n (λ i. file) table s
      × (k : ℕ) × (j : ℕ) × (s.pc 0 ≡ has k)
      × (s.pc 1 ≡ has j)
      × (k ≢ j)
      × IsRight s.table file k
      × IsRight s.table file j
unfolding ℕ_discrete
two_locks n file {table} two v room absent =
    let f : ℕ → Name = λ i. file in
    let k : ℕ = table.size in
    let s1 : Children = record (missed table) { pc = update (missed table).pc 0 (copies k) } in
    let r1 : Reach n f table s1 =
      next (missed-Reach n f table two absent absent)
        (point 0 (omega arith) refl (λ e. omega (arith, e))) in
    let a : Added n f table s1 0 k = add_run s1 0 k (omega arith) refl r1 in
    let t : Shared = a.state.table in
    let size_t : t.size ≡ k + 1 = ap (λ (u : Shared). u.size) a.grows in
    let cap_t : t.capacity ≡ table.capacity = ap (λ (u : Shared). u.capacity) a.grows in
    let len_t = ap (λ (u : Shared). length u.files) a.grows ∙ length-grown file k table in
    let name_t : name_at k t ≡ file =
      ap (name_at k) a.grows ∙ name-grown file k table (omega (arith, v.storage)) in
    let s2 : Children = record (a.state) { pc = update a.state.pc 1 (copies t.size) } in
    let r2 : Reach n f table s2 = next a.reached (
      point 1 (omega arith) (a.others 1 (λ e. omega (arith, e)))
        (λ e. omega (arith, e, size_t, cap_t))) in
    let b : Added n f table s2 1 t.size =
      add_run s2 1 t.size (omega arith) (update-at a.state.pc 1 (copies t.size)) r2 in
    let size_b : b.state.table.size ≡ t.size + 1 = ap (λ (u : Shared). u.size) b.grows in
    (
      b.state,
      b.reached,
      k,
      t.size,
      b.others 0 (λ e. omega (arith, e))
          ∙ update-other a.state.pc 1 0 (copies t.size) (λ e. omega (arith, e))
          ∙ a.gets,
      b.gets,
      (λ e. omega (arith, e, size_t)),
      (
        omega (arith, size_b, size_t),
        hit-name_at k b.state.table file (
            ap (name_at k) b.grows
            ∙ ap (λ (e : File). e.name)
                (other-grown file t.size k t (λ e. omega (arith, e, size_t)))
            ∙ name_t),
      ),
      (
        omega (arith, size_b),
        hit-name_at t.size b.state.table file (
            ap (name_at t.size) b.grows
            ∙ name-grown file t.size t (omega (arith, size_t, len_t, v.storage))),
      ),
    )
