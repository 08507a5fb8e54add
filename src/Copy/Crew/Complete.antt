-- ===== src/Copy/Crew/Complete.antt =====
-- What the workers have copied when the copier is through.
use gtu_cse344_system_progra.Base.{
  ℕ, ◌+◌, ◌<◌, ◌≡◌, refl, ap, ◌∙◌, false, List, [], ◌∷◌, ◌++◌, length, arith,
}
use gtu_cse344_system_progra.Base.Family.{number, number-eq-zero, number-eq-zero_below, number-map}
use gtu_cse344_system_progra.Base.Ring.{length-slots}
use gtu_cse344_system_progra.Copy.Buffer.Defs.{
  BufferElement, Buffer, Wake, no_element, buffer_set_done,
}
use gtu_cse344_system_progra.Copy.Buffer.Inv.{IsValid}
use gtu_cse344_system_progra.Copy.Buffer.Fifo.{contents}
use gtu_cse344_system_progra.Copy.Crew.Defs.{
  WorkerPc, popping, pop_sleeps, gone, copying, Crew, wake_worker, Wakes, wakes_none, wakes_manager,
  wakes_one, wakes_nobody, wakes_all, Step, push_waits, pushes, marks, pop_waits, pops, ends,
  retries, copies, at_start, Run, stop, then,
}
use gtu_cse344_system_progra.Copy.Crew.Facts.{push_facts, pop_facts, end_facts}
use gtu_cse344_system_progra.Copy.Crew.Inv.{asleep, active, Inv, number-update_from}
use gtu_cse344_system_progra.Copy.Crew.Keeps.{at_start-Inv, Run-Inv}
use gtu_cse344_system_progra.Copy.Crew.Progress.{IsThrough}

-- The sum of the weights of the members of a list.
abbrev pub total : (BufferElement → ℕ) → List BufferElement → ℕ
total weight [] = 0
total weight (x ∷ xs) = weight x + total weight xs

total-append :
    (weight : BufferElement → ℕ) (xs ys : List BufferElement)
    → total weight (xs ++ ys) ≡ total weight xs + total weight ys
total-append weight [] ys = omega arith
total-append weight (x ∷ xs) ys = omega (arith, total-append weight xs ys)

module _ (weight : BufferElement → ℕ) where
  load : WorkerPc → ℕ
  load popping = 0
  load pop_sleeps = 0
  load gone = 0
  load (copying x) = weight x

  amount : ℕ → Crew → ℕ
  amount n s =
      total weight s.copied
      + number load n s.worker
      + total weight (contents s.buffer)
      + total weight s.todo

  amount-Wakes : {n : ℕ} {s : Crew} {w : Wake} {t : Crew} → Wakes n s w t → amount n t ≡ amount n s
  unfolding amount load
  amount-Wakes wakes_none = refl
  amount-Wakes wakes_manager = refl
  amount-Wakes {n} {s} (wakes_one i lt e) =
      omega (arith, number-update_from load n s.worker i popping lt e)
  amount-Wakes (wakes_nobody nobody) = refl
  amount-Wakes {n} {s} wakes_all = omega (
    arith,
    number-map load load nothing wake_worker same n s.worker,
    number-eq-zero nothing n s.worker (λ i. refl),
  )
    where
      nothing : WorkerPc → ℕ
      nothing p = 0

      same : (p : WorkerPc) → load (wake_worker p) ≡ load p + nothing p
      same popping = refl
      same pop_sleeps = refl
      same gone = refl
      same (copying x) = omega arith

  amount-Step : {n : ℕ} {s t : Crew} → Inv n s → Step n s t → amount n t ≡ amount n s
  unfolding amount load buffer_set_done
  amount-Step v (push_waits m e h) = refl
  amount-Step {n} {s} v (pushes {x = x} {xs = xs} {b = b} m e h wk) =
      let p = push_facts v.valid h in
      amount-Wakes wk
      ∙ omega (
        arith,
        ap (total weight) e,
        ap (total weight) p.last,
        total-append weight (contents s.buffer) (x ∷ []),
      )
  amount-Step {n} {s} v (marks {b = b} m e h wk) = amount-Wakes wk ∙ omega (arith, same)
    where
      same : total weight (contents b) ≡ total weight (contents s.buffer)
      same = ground arith
  amount-Step {n} {s} v (pop_waits i lt e h) =
      omega (arith, number-update_from load n s.worker i pop_sleeps lt e)
  amount-Step {n} {s} v (pops i {x = x} {b = b} lt e h wk) =
      let p = pop_facts v.valid h in
      amount-Wakes wk
      ∙ omega
          (arith, ap (total weight) p.first, number-update_from load n s.worker i (copying x) lt e)
  amount-Step {n} {s} v (ends i {b = b} lt e h d) = omega (
    arith,
    ap (λ (c : Buffer). total weight (contents c)) (end_facts h).0,
    number-update_from load n s.worker i gone lt e,
  )
  amount-Step {n} {s} v (retries i {b = b} lt e h d) =
      omega (arith, ap (λ (c : Buffer). total weight (contents c)) (end_facts h).0)
  amount-Step {n} {s} v (copies i lt e) =
      omega (arith, number-update_from load n s.worker i popping lt e)

  amount-Run :
      {n : ℕ} {s : Crew} {k : ℕ} {t : Crew} → Inv n s → Run n s k t → amount n t ≡ amount n s
  amount-Run v stop = refl
  amount-Run v (then r st) = amount-Step (Run-Inv r v) st ∙ amount-Run v r

  bare : (b : Buffer) → b.count ≡ 0 → total weight (contents b) ≡ 0
  bare b e = nil (contents b) (length-slots no_element b.capacity b.items b.out_index b.count ∙ e)
    where
      nil : (xs : List BufferElement) → length xs ≡ 0 → total weight xs ≡ 0
      nil [] h = refl
      nil (x ∷ xs) h = absurd (omega arith)

  -- When the manager has finished and every one of the one or more workers has gone, the elements
  -- that were copied have, for any weight of an element, the same sum as the manager's elements:
  -- each was copied exactly once, and nothing else was. The buffer was valid, open and empty at
  -- first.
  pub all_copied :
      (n : ℕ) {b : Buffer} (files : List BufferElement) {k : ℕ} {s : Crew}
      → 0 < n
      → IsValid b
      → b.done ≡ false
      → b.count ≡ 0
      → Run n (at_start b files) k s
      → IsThrough n s
      → total weight s.copied ≡ total weight files
  unfolding amount load
  all_copied n {b} files {s = s} some_worker v undone empty_first r through = omega (
    arith,
    amount-Run first r,
    bare b empty_first,
    bare s.buffer (inv.left_empty (omega (arith, none_of active refl, none_of asleep refl))),
    ap (total weight) (inv.finished_done through.0).1,
    none_of load unloaded,
    number-eq-zero load n (λ _. popping) (λ i. idle),
  )
    where
      first : Inv n (at_start b files)
      first = at_start-Inv n files v undone empty_first

      inv : Inv n s
      inv = Run-Inv r first

      none_of : (w : WorkerPc → ℕ) → w gone ≡ 0 → number w n s.worker ≡ 0
      none_of w z = number-eq-zero_below w n s.worker (λ i lt. ap w (through.1 i lt) ∙ z)

      unloaded : load gone ≡ 0
      unloaded = refl

      idle : load popping ≡ 0
      idle = refl
