-- ===== src/Server/Sync/Overlap/OneEntry.antt =====
-- Two children that add different files at once (Midterm/src/server.c and sync.c).
use gtu_cse344_system_progra.Base.{length}
use gtu_cse344_system_progra.Base.Strings.{same_name, same_name_eq}
use gtu_cse344_system_progra.Base.{
  ℕ, ◌+◌, ◌≤◌, ◌<◌, ◌≡◌, ◌≢◌, refl, ap, sym, ◌∙◌, none, ℕ_discrete, arith, false, Bool-cases, inl,
  inr,
}
use gtu_cse344_system_progra.Base.Family.{update}
use gtu_cse344_system_progra.Server.Sync.Table.{Name, Shared, get_file}
use gtu_cse344_system_progra.Server.Sync.Find.{IsValid, hit}
use gtu_cse344_system_progra.Server.Sync.Overlap.{copies, has, Children, point, Reach, next}
use gtu_cse344_system_progra.Server.Sync.Overlap.Adding.{
  IsRight, name-grown, length-grown, Added, add_run,
}
use gtu_cse344_system_progra.Server.Sync.Overlap.TwoLocks.{
  missed, missed-Reach, name_at, hit-name_at,
}

same_name_ne : (a b : Name) → a ≢ b → same_name b a ≡ false
same_name_ne a b ne = elim (Bool-cases (same_name b a)) [
  | inl e ↦ absurd (ne (sym (same_name_eq b a e)))
  | inr e ↦ e
]

-- Two children, or more, of which two want different files that a valid table with room for one more
-- does not have: they can both end with the same entry, which names the file of the second and not
-- that of the first, with the size two more, which is past the capacity where there was room for one.
pub one_entry :
    (n : ℕ) (file : ℕ → Name) {table : Shared}
    → 2 ≤ n
    → IsValid table
    → table.size < table.capacity
    → get_file table (file 0) ≡ none
    → get_file table (file 1) ≡ none
    → file 0 ≢ file 1
    → (s : Children) × Reach n file table s
      × (s.pc 0 ≡ has table.size)
      × (s.pc 1 ≡ has table.size)
      × IsRight s.table (file 1) table.size
      × (hit s.table (file 0) table.size ≡ false)
      × (s.table.size ≡ table.size + 2)
unfolding ℕ_discrete
one_entry n file {table} two v room absent absent' ne =
    let k : ℕ = table.size in
    let s1 : Children = record (missed table) { pc = update (missed table).pc 0 (copies k) } in
    let r1 : Reach n file table s1 =
      next (missed-Reach n file table two absent absent')
        (point 0 (omega arith) refl (λ e. omega (arith, e))) in
    let s2 : Children = record s1 { pc = update s1.pc 1 (copies k) } in
    let r2 : Reach n file table s2 = next r1 (point 1 (omega arith) refl (λ e. omega (arith, e))) in
    let a : Added n file table s2 0 k = add_run s2 0 k (omega arith) refl r2 in
    let t : Shared = a.state.table in
    let size_t : t.size ≡ k + 1 = ap (λ (u : Shared). u.size) a.grows in
    let len_t = ap (λ (u : Shared). length u.files) a.grows ∙ length-grown (file 0) k table in
    let b : Added n file table a.state 1 k =
      add_run a.state 1 k (omega arith) (a.others 1 (λ e. omega (arith, e))) a.reached in
    let size_b : b.state.table.size ≡ t.size + 1 = ap (λ (u : Shared). u.size) b.grows in
    let name_b : name_at k b.state.table ≡ file 1 =
      ap (name_at k) b.grows ∙ name-grown (file 1) k t (omega (arith, len_t, v.storage)) in
    (
      b.state,
      b.reached,
      b.others 0 (λ e. omega (arith, e)) ∙ a.gets,
      b.gets,
      (omega (arith, size_b, size_t), hit-name_at k b.state.table (file 1) name_b),
      ap (λ m. same_name m (file 0)) name_b ∙ same_name_ne (file 0) (file 1) ne,
      omega (arith, size_b, size_t),
    )
