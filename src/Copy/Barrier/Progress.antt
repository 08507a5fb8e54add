-- ===== src/Copy/Barrier/Progress.antt =====
-- The barrier opens.
use gtu_cse344_system_progra.Base.{ℕ, ◌+◌, ◌<◌, ◌≡◌, ◌⊎◌, inl, inr, refl, ap, false, List, arith}
use gtu_cse344_system_progra.Base.Family.{
  number, number-find, number-all, weight-le-number, number-le_const,
}
use gtu_cse344_system_progra.Copy.Buffer.Defs.{BufferElement, Buffer}
use gtu_cse344_system_progra.Copy.Buffer.Inv.{IsValid}
use gtu_cse344_system_progra.Copy.Crew.Progress.{IsThrough, never_stuck}
use gtu_cse344_system_progra.Copy.Barrier.{
  Stage, working, waiting, left, Hall, manager_waits, manager_leaves, worker_waits, worker_leaves,
  HallMove, works, manager_moves, worker_moves, hall_at_start, HallRun,
}
use gtu_cse344_system_progra.Copy.Barrier.Safety.{here, here_le, HallInv, HallRun-HallInv}

abbrev pub CanMove : ℕ → Hall → Type 0
CanMove n h = (h' : Hall) × HallMove n h h'

-- All threads have passed the barrier, and end.
abbrev pub AllLeft : ℕ → Hall → Type 0
AllLeft n h = (h.manager ≡ left) × ((i : ℕ) → i < n → h.worker i ≡ left)

abbrev in_front : Stage → ℕ
in_front working = 1
in_front waiting = 0
in_front left = 0

abbrev at_barrier : Stage → ℕ
at_barrier working = 0
at_barrier waiting = 1
at_barrier left = 0

in_front-working : (s : Stage) → 0 < in_front s → s ≡ working
in_front-working working p = refl
in_front-working waiting p = absurd (omega arith)
in_front-working left p = absurd (omega arith)

at_barrier-waiting : (s : Stage) → 0 < at_barrier s → s ≡ waiting
at_barrier-waiting working p = absurd (omega arith)
at_barrier-waiting waiting p = refl
at_barrier-waiting left p = absurd (omega arith)

stage_left : (s : Stage) → in_front s ≡ 0 → at_barrier s ≡ 0 → s ≡ left
stage_left working e e' = absurd (omega (arith, e))
stage_left waiting e e' = absurd (omega (arith, e'))
stage_left left e e' = refl

stage_here : (s : Stage) → in_front s ≡ 0 → here s ≡ 1
stage_here working e = absurd (omega (arith, e))
stage_here waiting e = refl
stage_here left e = refl

none_in : (w : Stage → ℕ) (n : ℕ) (f : ℕ → Stage) (i : ℕ) → number w n f ≡ 0 → i < n → w (f i) ≡ 0
none_in w n f i z lt = omega (arith, weight-le-number w n f i lt)

module _ (n : ℕ) (b : Buffer) (files : List BufferElement) (h : Hall)
    (v : HallInv n b files h) where
  -- All have arrived.
  opened :
      (m : Stage)
      → h.manager ≡ m
      → h.arrived ≡ n + 1
      → number in_front n h.worker ≡ 0
      → CanMove n h ⊎ AllLeft n h
  opened working e full z =
      absurd (omega (arith, full, v.counts, ap here e, number-le_const here n h.worker here_le))
  opened waiting e full z = inl (_, manager_moves (manager_leaves e full))
  opened left e full z = elim (number-find at_barrier n h.worker) [
    | inl (i, lt, p) ↦
        inl (_, worker_moves (worker_leaves i lt (at_barrier-waiting (h.worker i) p) full))
    | inr z' ↦ inr (
      e,
      λ i lt.
          stage_left (h.worker i) (none_in in_front n h.worker i z lt)
            (none_in at_barrier n h.worker i z' lt),
    )
  ]

  -- The work is done.
  through_goes : (m : Stage) → h.manager ≡ m → IsThrough n h.crew → CanMove n h ⊎ AllLeft n h
  through_goes m e through = elim (number-find in_front n h.worker) [
    | inl (i, lt, p) ↦
        inl (_, worker_moves (worker_waits i lt (through.1 i lt) (in_front-working (h.worker i) p)))
    | inr z ↦ manager_goes m e z
  ]
    where
      all_here : number in_front n h.worker ≡ 0 → here h.manager ≡ 1 → h.arrived ≡ n + 1
      all_here z e = omega (
        arith,
        v.counts,
        e,
        number-all here n h.worker
            (λ i lt. stage_here (h.worker i) (none_in in_front n h.worker i z lt)),
      )

      manager_goes :
          (m : Stage) → h.manager ≡ m → number in_front n h.worker ≡ 0 → CanMove n h ⊎ AllLeft n h
      manager_goes working e z = inl (_, manager_moves (manager_waits through.0 e))
      manager_goes waiting e z = opened waiting e (all_here z (ap here e)) z
      manager_goes left e z = opened left e (all_here z (ap here e)) z

-- With at least one worker, whatever the threads have done from the start with a valid buffer that is
-- open and empty, one of them can take a step, or all have passed the barrier: no thread waits at it for
-- good.
pub barrier_opens :
    (n : ℕ) {b : Buffer} (files : List BufferElement) {h : Hall}
    → 0 < n
    → IsValid b
    → b.done ≡ false
    → b.count ≡ 0
    → HallRun n (hall_at_start b files) h
    → CanMove n h ⊎ AllLeft n h
barrier_opens n {b} files {h} some_worker v undone bare r =
    let inv = HallRun-HallInv n b files r in
    elim (never_stuck n files some_worker v undone bare inv.run) [
      | inl (s, st) ↦ inl (_, works st)
      | inr through ↦ through_goes n b files h inv h.manager refl through
    ]
