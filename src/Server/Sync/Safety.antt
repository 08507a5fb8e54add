-- ===== src/Server/Sync/Safety.antt =====
-- What the reader-writer lock guarantees in every reachable state, and where it gets stuck.
use gtu_cse344_system_progra.Base.{ℕ, ◌+◌, ◌≤◌, ◌<◌, ◌≡◌, ◌≢◌, refl, subst, arith, ℕ_discrete}
use gtu_cse344_system_progra.Base.Family.{update, weight-le-number, weights-le-number}
use gtu_cse344_system_progra.Server.Sync.Lock.{
  Lock, Pc, outside, counted, reading, queued, writing, Move, count_in, first_reader, later_reader,
  read_unlock, count_out, last_reader, other_reader, exit_unlock, write_lock, write_enter,
  write_exit, write_unlock, System, Step, turn, Reach, start, next,
}
use gtu_cse344_system_progra.Server.Sync.Invariant.{at, count_at, Inv, Reach-Inv}

-- A process that stands at a place is counted there.
stands : (c : Pc) (n : ℕ) (pc : ℕ → Pc) (i : ℕ) → i < n → pc i ≡ c → at c c ≤ count_at c n pc
stands c n pc i lt e = subst (λ p. at c p ≤ count_at c n pc) e (weight-le-number (at c) n pc i lt)

stand_both :
    (c : Pc) (n : ℕ) (pc : ℕ → Pc) (i j : ℕ)
    → i < n
    → j < n
    → i ≢ j
    → pc i ≡ c
    → pc j ≡ c
    → at c c + at c c ≤ count_at c n pc
stand_both c n pc i j hi hj ne ei ej =
    subst (λ p. at c p + at c c ≤ count_at c n pc) ei
      (subst (λ p. at c (pc i) + at c p ≤ count_at c n pc) ej
        (weights-le-number (at c) n pc i j hi hj ne))

-- In every reachable state, while a process writes no other process reads, and none writes.
pub writer_alone :
    {n : ℕ} {s : System}
    → Reach n s
    → (i j : ℕ) → i < n
    → j < n
    → s.pc i ≡ writing
    → i ≢ j
    → (s.pc j ≢ reading) × (s.pc j ≢ writing)
writer_alone {n} {s} r i j hi hj w ne = (
  λ e. omega (arith, Reach-Inv r, stands writing n s.pc i hi w, stands reading n s.pc j hj e),
  λ e. omega (arith, Reach-Inv r, stand_both writing n s.pc i j hi hj ne w e),
)

-- In every reachable state where a process reads, `reader_count` is above 0, so that its
-- `reader_count--` does not take the count below 0.
pub count_positive :
    {n : ℕ} {s : System} → Reach n s → (i : ℕ) → i < n → s.pc i ≡ reading → 0 < s.lock.reader_count
count_positive {n} {s} r i lt e = omega (arith, Reach-Inv r, stands reading n s.pc i lt e)

stays_put :
    {m m' : Lock} {p p' : Pc} (n : ℕ) (pc : ℕ → Pc)
    → Inv n m pc
    → 1 ≤ count_at queued n pc
    → 1 ≤ count_at counted n pc
    → Move m p m' p'
    → at p p ≤ count_at p n pc
    → ⊥
stays_put n pc inv q c (count_in g) here = omega arith
stays_put n pc inv q c (first_reader e g) here = omega arith
stays_put n pc inv q c (later_reader e) here = omega arith
stays_put n pc inv q c read_unlock here = omega arith
stays_put n pc inv q c (count_out g) here = omega arith
stays_put n pc inv q c (last_reader e) here = omega arith
stays_put n pc inv q c (other_reader e) here = omega arith
stays_put n pc inv q c exit_unlock here = omega arith
stays_put n pc inv q c (write_lock g) here = omega arith
stays_put n pc inv q c (write_enter g) here = omega arith
stays_put n pc inv q c write_exit here = omega arith
stays_put n pc inv q c write_unlock here = omega arith

-- In a reachable state where a writer stands between its two semaphores and a reader behind its
-- first, no process of the system can ever take another step.
deadlock :
    {n : ℕ} {s t : System}
    → Reach n s
    → (i j : ℕ) → i < n
    → j < n
    → s.pc i ≡ queued
    → s.pc j ≡ counted
    → ¬ Step n s t
deadlock {n} {s} r i j hi hj q c (turn k lt mv) =
    stays_put n s.pc (Reach-Inv r) (stands queued n s.pc i hi q) (stands counted n s.pc j hj c) mv
      (stands (s.pc k) n s.pc k lt refl)

-- With two processes or more, a state is reachable where a writer stands between its two semaphores
-- and a reader behind its first.
deadlock_reachable :
    (n : ℕ) → 2 ≤ n → (s : System) × Reach n s × (s.pc 0 ≡ queued) × (s.pc 1 ≡ counted)
unfolding ℕ_discrete
deadlock_reachable n h = (
  record {
    lock = record { reader_count = 1; reader_mutex = 0; writer_mutex = 0 };
    pc = update (update (λ _. outside) 0 queued) 1 counted;
  },
  next (next start (turn 0 (omega arith) (write_lock (omega arith))))
      (turn 1 (omega arith) (count_in (omega arith))),
  refl,
  refl,
)

-- With two processes or more, a state is reachable in which no process of the system can ever take
-- another step: a writer stands between its two semaphores, and a reader behind its first.
pub deadlock_occurs : (n : ℕ) → 2 ≤ n → (s : System) × Reach n s × ((t : System) → ¬ Step n s t)
deadlock_occurs n h =
    let (s, r, writer, reader) = deadlock_reachable n h in
    (s, r, λ t. deadlock r 0 1 (omega arith) (omega arith) writer reader)
