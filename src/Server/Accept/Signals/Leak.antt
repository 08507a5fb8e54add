-- ===== src/Server/Accept/Signals/Leak.antt =====
-- Which counts `num_clients` of Midterm/src/server.c can have with no child left.
use gtu_cse344_system_progra.Base.{
  ◌↔◌, subst, ℕ, zero, suc, ◌≤◌, ◌<◌, ◌≡◌, refl, Bool, true, false, arith,
}
use gtu_cse344_system_progra.Server.Accept.Signals.{
  at_top, Places, Step, read_request, admit, load, store, fork, child_ends,
  client_termination_handler, Reach, start, next,
}
use gtu_cse344_system_progra.Server.Accept.Signals.Bounds.{Reach-Inv}

-- The loop is at its top, nobody waits, no child runs, and no signal waits.
abbrev pub Quiet : ℕ → Places → Type 0
Quiet n s =
    (s.pc ≡ at_top) × (s.waiting ≡ 0) × (s.live ≡ 0) × (s.pending ≡ false) × (s.num_clients ≡ n)

abbrev serving : ℕ → ℕ → Bool → Places
serving n k p = record { pc = at_top; num_clients = n; waiting = 0; live = k; pending = p }

reach_by :
    {max_clients : ℕ} {s t u : Places}
    → Reach max_clients s
    → Step max_clients s t
    → t ≡ u
    → Reach max_clients u
reach_by r m e = subst (Reach _) e (next r m)

-- One client after the other is admitted.
reach_serving : {max_clients : ℕ} (n : ℕ) → n ≤ max_clients → Reach max_clients (serving n n false)
reach_serving zero h = start
reach_serving {max_clients} (suc n) h =
    let r : Reach max_clients (serving n n false) = reach_serving n (omega arith) in
    let r1 = next r (read_request refl (λ g. omega (arith, g.1)) 0) in
    let r2 = next r1 (admit refl (omega arith) refl) in
    let r3 = next r2 (load refl) in
    let r4 = next r3 (store refl) in reach_by r4 (fork refl) (ground arith)

-- Children end before SIGCHLD is handled.
reach_ended :
    {max_clients : ℕ} (k n : ℕ)
    → Reach max_clients (serving n k true)
    → Reach max_clients (serving n 0 true)
reach_ended zero n r = r
reach_ended (suc k) n r = reach_ended k n (reach_by r (child_ends (omega arith)) (ground arith))

reach-Quiet :
    {max_clients : ℕ} (n : ℕ) → n < max_clients → (s : Places) × Reach max_clients s × Quiet n s
reach-Quiet {max_clients} n h =
    let r : Reach max_clients (serving (suc n) (suc n) false) =
      reach_serving (suc n) (omega arith) in
    let r1 = reach_by r (child_ends (omega arith)) (ground arith) in
    let r2 = reach_ended n (suc n) r1 in
    (
      serving n 0 false,
      reach_by r2 (client_termination_handler refl) (ground arith),
      (refl, refl, refl, refl, refl),
    )

-- For a server with places, a state in which nobody is served and nothing waits is reachable with
-- exactly the counts below the maximum: signals that merge lose places for good, all but one.
pub places_lost :
    {max_clients : ℕ}
    → 0 < max_clients
    → (n : ℕ) → (n < max_clients) ↔ ((s : Places) × Reach max_clients s × Quiet n s)
places_lost {max_clients} p n = (reach-Quiet n, only_below)
  where
    only_below : (s : Places) × Reach max_clients s × Quiet n s → n < max_clients
    only_below (s, r, q) = let v = Reach-Inv r in grind (arith, v.one_left p)
