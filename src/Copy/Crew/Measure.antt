-- ===== src/Copy/Crew/Measure.antt =====
-- The threads of the copier come to an end.
use gtu_cse344_system_progra.Copy.Crew.Defs.{
  wake_manager, ManagerPc, pushing, push_sleeps, finished, WorkerPc, popping, pop_sleeps, gone,
  copying, Crew, wake_worker, Wakes, wakes_none, wakes_manager, wakes_one, wakes_nobody, wakes_all,
  Step, push_waits, pushes, marks, pop_waits, pops, ends, retries, copies, at_start, Run, stop,
  then,
}
use native.Mathlib.Nat.{mul-le-mul_right}
use gtu_cse344_system_progra.Base.{
  ℕ, ◌+◌, ◌*◌, ◌≤◌, ◌<◌, ◌≡◌, refl, ap, ◌⊎◌, inl, inr, false, List, length, arith,
}
use gtu_cse344_system_progra.Base.Family.{number, number-le_const, number-eq-zero, number-map}
use gtu_cse344_system_progra.Copy.Buffer.Defs.{
  BufferElement, Buffer, Wake, buffer_set_done, buffer_is_done,
}
use gtu_cse344_system_progra.Copy.Buffer.Inv.{IsValid}
use gtu_cse344_system_progra.Copy.Crew.Facts.{push_facts, pop_facts, end_facts}
use gtu_cse344_system_progra.Copy.Crew.Inv.{Inv, number-update_from}
use gtu_cse344_system_progra.Copy.Crew.Keeps.{at_start-Inv, Run-Inv}

busy : WorkerPc → ℕ
busy popping = 0
busy pop_sleeps = 0
busy gone = 0
busy (copying x) = 1

tries : WorkerPc → ℕ
tries popping = 1
tries pop_sleeps = 0
tries gone = 0
tries (copying x) = 0

open_end : ManagerPc → ℕ
open_end pushing = 1
open_end push_sleeps = 1
open_end finished = 0

manager_tries : ManagerPc → ℕ
manager_tries pushing = 1
manager_tries push_sleeps = 0
manager_tries finished = 0

-- What is left to do, a push and a pop and a copy of each element and the end mark; and how many
-- threads may try an operation before they sleep or go.
work : ℕ → Crew → ℕ
work n s = 3 * length s.todo + 2 * s.buffer.count + number busy n s.worker + open_end s.manager

tryers : ℕ → Crew → ℕ
tryers n s = number tries n s.worker + manager_tries s.manager

few_tryers : (n : ℕ) (s : Crew) → tryers n s < n + 2
unfolding tryers tries manager_tries
few_tryers n s = omega (arith, number-le_const tries n s.worker one, small s.manager)
  where
    one : (p : WorkerPc) → tries p ≤ 1
    one popping = omega arith
    one pop_sleeps = omega arith
    one gone = omega arith
    one (copying x) = omega arith

    small : (m : ManagerPc) → manager_tries m ≤ 1
    small pushing = omega arith
    small push_sleeps = omega arith
    small finished = omega arith

-- A wake-up adds no work.
work-Wakes : {n : ℕ} {s : Crew} {w : Wake} {t : Crew} → Wakes n s w t → work n t ≡ work n s
unfolding work busy open_end
work-Wakes wakes_none = refl
work-Wakes {s = s} wakes_manager = omega (arith, same s.manager)
  where
    same : (m : ManagerPc) → open_end (wake_manager m) ≡ open_end m
    same pushing = refl
    same push_sleeps = refl
    same finished = refl
work-Wakes {n} {s} (wakes_one i lt e) =
    omega (arith, number-update_from busy n s.worker i popping lt e)
work-Wakes (wakes_nobody nobody) = refl
work-Wakes {n} {s} wakes_all = omega (
  arith,
  number-map busy busy nothing wake_worker same n s.worker,
  number-eq-zero nothing n s.worker (λ i. refl),
)
  where
    nothing : WorkerPc → ℕ
    nothing p = 0

    same : (p : WorkerPc) → busy (wake_worker p) ≡ busy p + nothing p
    same popping = refl
    same pop_sleeps = refl
    same gone = refl
    same (copying x) = refl

-- A step takes work away, or it leaves the work as it is and one thread fewer tries.
Step-less :
    {n : ℕ} {s t : Crew}
    → Inv n s
    → Step n s t
    → (work n t < work n s) ⊎ ((work n t ≡ work n s) × (tryers n t < tryers n s))
unfolding work tryers busy tries open_end manager_tries buffer_set_done buffer_is_done
Step-less v (push_waits m e h) =
    inr (omega (arith, ap open_end m), omega (arith, ap manager_tries m))
Step-less v (pushes m e h wk) =
    let p = push_facts v.valid h in inl (omega (arith, work-Wakes wk, ap length e, p.grows))
Step-less {s = s} v (marks {b = b} m e h wk) =
    inl (omega (arith, work-Wakes wk, same, ap open_end m))
  where
    same : b.count ≡ s.buffer.count
    same = ground arith
Step-less {n} {s} v (pop_waits i lt e h) = inr (
  omega (arith, number-update_from busy n s.worker i pop_sleeps lt e),
  omega (arith, number-update_from tries n s.worker i pop_sleeps lt e),
)
Step-less {n} {s} v (pops i {x = x} lt e h wk) =
    let p = pop_facts v.valid h in
    inl (
      omega
        (arith, work-Wakes wk, p.shrinks, number-update_from busy n s.worker i (copying x) lt e))
Step-less {n} {s} v (ends i lt e h d) = inr (
  omega (
    arith,
    ap (λ (c : Buffer). c.count) (end_facts h).0,
    number-update_from busy n s.worker i gone lt e,
  ),
  omega (arith, number-update_from tries n s.worker i gone lt e),
)
Step-less {n} {s} v (retries i lt e h d) =
    let (same, none_in, done) = end_facts h in
    absurd (cc (ap (λ (c : Buffer). c.done) same, done, d))
Step-less {n} {s} v (copies i lt e) =
    inl (omega (arith, number-update_from busy n s.worker i popping lt e))

measure : ℕ → Crew → ℕ
measure n s = work n s * (n + 2) + tryers n s

lexicographic :
    (room w w' u u' : ℕ)
    → u' < room
    → (w' < w) ⊎ ((w' ≡ w) × (u' < u))
    → w' * room + u' < w * room + u
lexicographic room w w' u u' small (inl lt) = omega (arith, mul-le-mul_right room lt)
lexicographic room w w' u u' small (inr (e, lt)) = omega (arith, ap (λ k. k * room) e)

Step-measure : {n : ℕ} {s t : Crew} → Inv n s → Step n s t → measure n t < measure n s
unfolding measure
Step-measure {n} {s} {t} v st =
    lexicographic (n + 2) (work n s) (work n t) (tryers n s) (tryers n t) (few_tryers n t)
      (Step-less v st)

Run-measure :
    {n : ℕ} {s : Crew} {k : ℕ} {t : Crew} → Inv n s → Run n s k t → k + measure n t ≤ measure n s
Run-measure v stop = omega arith
Run-measure v (then r st) = omega (arith, Step-measure (Run-Inv r v) st, Run-measure v r)

-- From the start with a valid buffer that is open and empty, `n` workers and the manager take no
-- more than (3 * files + 1) * (n + 2) + n + 1 steps in all, whatever their order.
pub runs_end :
    (n : ℕ) {b : Buffer} (files : List BufferElement) {k : ℕ} {s : Crew}
    → IsValid b
    → b.done ≡ false
    → b.count ≡ 0
    → Run n (at_start b files) k s
    → k ≤ (3 * length files + 1) * (n + 2) + (n + 1)
unfolding measure work tryers busy open_end manager_tries
runs_end n {b} files v undone bare r = omega (
  arith,
  Run-measure (at_start-Inv n files v undone bare) r,
  few_tryers n (at_start b files),
  ap (λ c. (3 * length files + 2 * c + number busy n (λ _. popping) + 1) * (n + 2)) bare,
  ap (λ c. (3 * length files + 2 * 0 + c + 1) * (n + 2))
      (number-eq-zero busy n (λ _. popping) (λ i. refl)),
)
