-- ===== src/Children/Program/Reaping.antt =====
-- `sigchld_handler` of HW2/src/main.c, as steps between which children end. Signals that wait are
-- one signal; the handler is not entered again while it runs.
use gtu_cse344_system_progra.Base.{
  ◌≤◌, ℕ, ◌+◌, ◌-◌, ◌<◌, ◌≡◌, Bool, true, false, List, [], ◌∷◌, ◌++◌, length,
}

-- `ended` is the children that have ended and that no `waitpid` has returned yet.
pub record Counting : Type 0 where
  pub forked : ℕ
  pub running : ℕ
  pub ended : List ℕ
  pub pending : Bool
  pub handling : Bool
  pub child_counter : ℕ

pub data Step (s : Counting) : Counting → Type 0 where
  fork : s.forked < 2 → Step s (record s { forked = s.forked + 1; running = s.running + 1 })
  child_ends :
      (pid : ℕ)
      → 0 < s.running
      → Step s (record s { running = s.running - 1; ended = s.ended ++ (pid ∷ []); pending = true })
  sigchld_handler :
      s.pending ≡ true → s.handling ≡ false → Step s (record s { pending = false; handling = true })
  waitpid :
      {pid : ℕ} {pids : List ℕ}
      → s.handling ≡ true
      → s.ended ≡ pid ∷ pids
      → Step s (record s { ended = pids; child_counter = s.child_counter + 1 })
  no_child : s.handling ≡ true → s.ended ≡ [] → Step s (record s { handling = false })

abbrev pub at_start : Counting
at_start = record {
  forked = 0;
  running = 0;
  ended = [];
  pending = false;
  handling = false;
  child_counter = 0;
}

pub data Reach : Counting → Type 0 where
  start : Reach at_start
  next : {s t : Counting} → Reach s → Step s t → Reach t

record Inv (s : Counting) : Type 0 where
  all_counted : s.running + length s.ended + s.child_counter ≡ s.forked
  most : s.forked ≤ 2
  reaped : s.pending ≡ false → s.handling ≡ false → s.ended ≡ []
