-- ===== src/Server/Accept/Signals/Bounds.antt =====
-- What `num_clients` says of the children that run, whatever the order of signals and steps.
use gtu_cse344_system_progra.Base.{◌≢◌, ℕ, ◌+◌, ◌≤◌, ◌<◌, ◌≡◌, Bool, true, false, arith}
use gtu_cse344_system_progra.Server.Accept.Signals.{
  Pc, at_top, counts, forks, exited, has_read, loaded, Places, Step, take_waiting, read_request,
  admit, wait, turn_away, turn_away_fails, ignore, load, store, fork, no_fork, child_ends,
  client_termination_handler, Reach, start, next,
}

-- A signal that waits, and a place that is counted and has no child yet.
abbrev pub signals : Bool → ℕ
signals true = 1
signals false = 0

abbrev pub counted : Pc → ℕ
counted forks = 1
counted exited = 0
counted at_top = 0
counted counts = 0
counted (has_read b) = 0
counted (loaded k) = 0

-- The count that the loop goes on with is at least `num_clients` and below the maximum.
abbrev pub Going : ℕ → ℕ → Pc → Type 0
Going max_clients n counts = n < max_clients
Going max_clients n (loaded k) = (n ≤ k) × (k < max_clients)
Going max_clients n at_top = n ≤ max_clients
Going max_clients n forks = n ≤ max_clients
Going max_clients n exited = n ≤ max_clients
Going max_clients n (has_read b) = n ≤ max_clients

pub record Inv (max_clients : ℕ) (s : Places) : Type 0 where
  pub places : s.live + signals s.pending + counted s.pc ≤ s.num_clients
  pub going : Going max_clients s.num_clients s.pc
  pub below : s.num_clients ≤ max_clients
  pub one_left :
      0 < max_clients
      → s.pc ≢ exited
      → s.live + signals s.pending + counted s.pc ≡ 0
      → s.num_clients < max_clients

Step-Inv :
    {max_clients : ℕ} {s t : Places} → Step max_clients s t → Inv max_clients s → Inv max_clients t
Step-Inv (take_waiting e h w) v = ground arith
Step-Inv (read_request e h b) v = ground arith
Step-Inv (admit e h w) v = ground arith
Step-Inv (wait e h) v = ground arith
Step-Inv (turn_away e b h) v = ground arith
Step-Inv (turn_away_fails e b h) v = ground arith
Step-Inv (ignore e) v = ground arith
Step-Inv (load e) v = ground arith
Step-Inv (store e) v = ground arith
Step-Inv (fork e) v = ground arith
Step-Inv (no_fork e) v = ground arith
Step-Inv (child_ends h) v = ground arith
Step-Inv (client_termination_handler e) v = ground arith

pub Reach-Inv : {max_clients : ℕ} {s : Places} → Reach max_clients s → Inv max_clients s
Reach-Inv start = record {
  places = omega arith;
  going = omega arith;
  below = omega arith;
  one_left = λ h p e. h;
}
Reach-Inv (next r m) = Step-Inv m (Reach-Inv r)

-- The children that run and a signal that waits are at most `num_clients`, and that is at most the
-- maximum, in every reachable state: so SIGCHLD never takes the count below 0, and the server never
-- has more children than it may.
pub served-num_clients :
    {max_clients : ℕ} {s : Places}
    → Reach max_clients s
    → (s.live + signals s.pending ≤ s.num_clients) × (s.num_clients ≤ max_clients)
served-num_clients r = let v = Reach-Inv r in (omega (arith, v.places), v.below)
