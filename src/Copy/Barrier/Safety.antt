-- ===== src/Copy/Barrier/Safety.antt =====
-- Nobody passes the barrier before the work is done.
use gtu_cse344_system_progra.Base.{
  ◌≤◌, ℕ, ◌+◌, ◌<◌, ◌≡◌, ◌≢◌, ◌⊎◌, inl, inr, refl, ap, subst, false, List, arith,
}
use gtu_cse344_system_progra.Base.Family.{
  update, number, number-update, number-full, number-le_const, number-eq-zero,
}
use gtu_cse344_system_progra.Copy.Buffer.Defs.{BufferElement, Buffer}
use gtu_cse344_system_progra.Copy.Buffer.Inv.{IsValid}
use gtu_cse344_system_progra.Copy.Crew.Defs.{finished, gone, Crew, Step, at_start, Run, stop, then}
use gtu_cse344_system_progra.Copy.Crew.Progress.{IsThrough}
use gtu_cse344_system_progra.Copy.Crew.Complete.{total, all_copied}
use gtu_cse344_system_progra.Copy.Barrier.{
  Stage, working, waiting, left, Hall, ManagerMove, manager_waits, manager_leaves, WorkerMove,
  worker_waits, worker_leaves, works, manager_moves, worker_moves, hall_at_start, HallRun, stay,
  move,
}
use gtu_cse344_system_progra.Copy.Barrier.Stays.{Step-gone, Step-finished}

abbrev pub here : Stage → ℕ
here working = 0
here waiting = 1
here left = 1

abbrev pub present : ℕ → Hall → ℕ
present n h = here h.manager + number here n h.worker

-- `arrived` counts the threads that are at the barrier or behind it, each of which has ended its work;
-- and a thread is behind it only when all have arrived.
pub record HallInv (n : ℕ) (b : Buffer) (files : List BufferElement) (h : Hall) : Type 0 where
  pub steps : ℕ
  pub run : Run n (at_start b files) steps h.crew
  pub counts : h.arrived ≡ present n h
  pub manager_ended : 0 < here h.manager → h.crew.manager ≡ finished
  pub worker_ended : (i : ℕ) → i < n → 0 < here (h.worker i) → h.crew.worker i ≡ gone
  pub manager_left : h.manager ≡ left → h.arrived ≡ n + 1
  pub worker_left : (i : ℕ) → i < n → h.worker i ≡ left → h.arrived ≡ n + 1

pub here_le : (s : Stage) → here s ≤ 1
here_le working = omega arith
here_le waiting = omega arith
here_le left = omega arith

number-here :
    (n : ℕ) (f : ℕ → Stage) (i : ℕ) (a p : Stage)
    → i < n
    → f i ≡ p
    → number here n (update f i a) + here p ≡ number here n f + here a
number-here n f i a p lt e =
    subst (λ q. number here n (update f i a) + here q ≡ number here n f + here a) e
      (number-update here n f i a lt)

module _ (n : ℕ) (b : Buffer) (files : List BufferElement) where
  start-HallInv : HallInv n b files (hall_at_start b files)
  start-HallInv = record {
    steps = 0;
    run = stop;
    counts = omega (arith, number-eq-zero here n (λ _. working) (λ i. refl));
    manager_ended = λ p. absurd (omega arith);
    worker_ended = λ i lt p. absurd (omega arith);
    manager_left = λ e. cc;
    worker_left = λ i lt e. cc;
  }

  works-HallInv :
      (h : Hall) {s : Crew}
      → HallInv n b files h
      → Step n h.crew s
      → HallInv n b files (record h { crew = s })
  works-HallInv h v st = record {
    steps = 1 + v.steps;
    run = then v.run st;
    counts = v.counts;
    manager_ended = λ p. Step-finished st (v.manager_ended p);
    worker_ended = λ i lt p. Step-gone i st (v.worker_ended i lt p);
    manager_left = v.manager_left;
    worker_left = v.worker_left;
  }

  manager-HallInv :
      (h : Hall) {h' : Hall} → HallInv n b files h → ManagerMove n h h' → HallInv n b files h'
  manager-HallInv h v (manager_waits f w) = record {
    steps = v.steps;
    run = v.run;
    counts = ground (arith, v.counts, w);
    manager_ended = λ p. f;
    worker_ended = v.worker_ended;
    manager_left = λ e. cc;
    worker_left = λ i lt e. absurd (
        omega (
          arith,
          v.worker_left i lt e,
          v.counts,
          ap here w,
          number-le_const here n h.worker here_le,
        ));
  }
  manager-HallInv h v (manager_leaves w full) = record {
    steps = v.steps;
    run = v.run;
    counts = ground (arith, v.counts, w);
    manager_ended = λ p. v.manager_ended (ground (arith, w));
    worker_ended = v.worker_ended;
    manager_left = λ e. full;
    worker_left = v.worker_left;
  }

  -- While a worker is in front of the barrier, some thread has not arrived.
  not_full :
      (h : Hall) (i : ℕ) → HallInv n b files h → i < n → h.worker i ≡ working → h.arrived ≢ n + 1
  not_full h i v lt w full = absurd (
      omega (
        arith,
        ap here w,
        number-full here n h.worker i here_le lt (omega (arith, full, v.counts, here_le h.manager)),
      ))

  worker-HallInv :
      (h : Hall) {h' : Hall} → HallInv n b files h → WorkerMove n h h' → HallInv n b files h'
  worker-HallInv h v (worker_waits i lt g w) = record {
    steps = v.steps;
    run = v.run;
    counts = omega (arith, v.counts, number-here n h.worker i waiting working lt w);
    manager_ended = v.manager_ended;
    worker_ended = λ j lt' p. ground (arith, g, p, v.worker_ended j lt');
    manager_left = λ e. absurd (not_full h i v lt w (v.manager_left e));
    worker_left = λ j lt' e. absurd (not_full h i v lt w (v.worker_left j lt' (ground (arith, e))));
  }
  worker-HallInv h v (worker_leaves i lt w full) = record {
    steps = v.steps;
    run = v.run;
    counts = omega (arith, v.counts, number-here n h.worker i left waiting lt w);
    manager_ended = v.manager_ended;
    worker_ended = λ j lt' p. ground (arith, w, p, v.worker_ended i lt, v.worker_ended j lt');
    manager_left = λ e. full;
    worker_left = λ j lt' e. full;
  }

  pub HallRun-HallInv : {h : Hall} → HallRun n (hall_at_start b files) h → HallInv n b files h
  HallRun-HallInv stay = start-HallInv
  HallRun-HallInv (move {h' = h} r (works st)) = works-HallInv h (HallRun-HallInv r) st
  HallRun-HallInv (move {h' = h} r (manager_moves m)) = manager-HallInv h (HallRun-HallInv r) m
  HallRun-HallInv (move {h' = h} r (worker_moves m)) = worker-HallInv h (HallRun-HallInv r) m

  full-IsThrough : (h : Hall) → HallInv n b files h → h.arrived ≡ n + 1 → IsThrough n h.crew
  full-IsThrough h v full = (
    v.manager_ended (omega (arith, v.counts, full, number-le_const here n h.worker here_le)),
    λ i lt. v.worker_ended i lt (
        omega (
          arith,
          number-full here n h.worker i here_le lt
              (omega (arith, v.counts, full, here_le h.manager)),
        )),
  )

-- Some thread is behind the barrier.
abbrev pub SomeoneLeft : ℕ → Hall → Type 0
SomeoneLeft n h = (h.manager ≡ left) ⊎ ((i : ℕ) × (i < n) × (h.worker i ≡ left))

-- When one thread has passed the barrier, whichever it is, the work is done: the manager has marked the
-- buffer as done, no worker is copying any more, and each of the manager's elements has been copied
-- exactly once, for any weight of an element. There is a worker, and the buffer was valid, open and
-- empty at first.
pub barrier_safe :
    (weight : BufferElement → ℕ) (n : ℕ) {b : Buffer} (files : List BufferElement) {h : Hall}
    → 0 < n
    → IsValid b
    → b.done ≡ false
    → b.count ≡ 0
    → HallRun n (hall_at_start b files) h
    → SomeoneLeft n h
    → IsThrough n h.crew × (total weight h.crew.copied ≡ total weight files)
barrier_safe weight n {b} files {h} some_worker v undone bare r someone =
    (through, all_copied weight n files some_worker v undone bare inv.run through)
  where
    inv : HallInv n b files h
    inv = HallRun-HallInv n b files r

    full : h.arrived ≡ n + 1
    full = elim someone [ inl e ↦ inv.manager_left e | inr (i, lt, e) ↦ inv.worker_left i lt e ]

    through : IsThrough n h.crew
    through = full-IsThrough n b files h inv full
