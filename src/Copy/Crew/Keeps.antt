-- ===== src/Copy/Crew/Keeps.antt =====
-- Every step of the copier's threads keeps the invariant.
use gtu_cse344_system_progra.Base.{
  ℕ, ◌+◌, ◌≤◌, ◌<◌, ◌≡◌, refl, sym, true, false, List, ◌∷◌, arith, subst,
}
use gtu_cse344_system_progra.Base.Family.{number-const, update, number, number-eq-zero}
use gtu_cse344_system_progra.Copy.Buffer.Defs.{BufferElement, Buffer, buffer_set_done}
use gtu_cse344_system_progra.Copy.Buffer.Inv.{IsValid}
use gtu_cse344_system_progra.Copy.Crew.Defs.{
  pushing, push_sleeps, popping, pop_sleeps, gone, copying, Crew, Step, push_waits, pushes, marks,
  pop_waits, pops, ends, retries, copies, at_start, Run, stop, then,
}
use gtu_cse344_system_progra.Copy.Crew.Facts.{
  push_facts, pop_facts, end_facts, pop_waits_facts, push_waits_facts,
}
use gtu_cse344_system_progra.Copy.Crew.Inv.{
  asleep, active, Inv, number-update_from, pushes-Inv, pops-Inv, marks-Inv,
}

push_waits-Inv :
    {n : ℕ} {s : Crew}
    → Inv n s
    → s.manager ≡ pushing
    → s.buffer.capacity ≤ s.buffer.count
    → Inv n (record s { manager = push_sleeps })
push_waits-Inv {n} {s} v m no_room = record {
  valid = v.valid;
  fed = v.fed;
  all_there = v.all_there;
  all_up = v.all_up;
  left_empty = v.left_empty;
  manager_full = λ h. omega (arith, v.valid.count_in);
  done_finished = λ h. absurd (cc (v.done_finished h));
  finished_done = λ h. cc;
}

pop_waits-Inv :
    {n : ℕ} {s : Crew} (i : ℕ)
    → i < n
    → s.worker i ≡ popping
    → Inv n s
    → (s.buffer.count ≡ 0) × (s.buffer.done ≡ false)
    → Inv n (record s { worker = update s.worker i pop_sleeps })
pop_waits-Inv {n} {s} i lt e v h = record {
  valid = v.valid;
  fed = λ k. omega arith;
  all_there = λ k. omega (arith, v.all_there k, up, down);
  all_up = λ k. cc;
  left_empty = λ k. h.0;
  manager_full = v.manager_full;
  done_finished = v.done_finished;
  finished_done = v.finished_done;
}
  where
    up : number active n (update s.worker i pop_sleeps) + 1 ≡ number active n s.worker + 0
    up = number-update_from active n s.worker i pop_sleeps lt e

    down : number asleep n (update s.worker i pop_sleeps) + 0 ≡ number asleep n s.worker + 1
    down = number-update_from asleep n s.worker i pop_sleeps lt e

ends-Inv :
    {n : ℕ} {s : Crew} (i : ℕ)
    → i < n
    → s.worker i ≡ popping
    → Inv n s
    → (s.buffer.count ≡ 0) × (s.buffer.done ≡ true)
    → Inv n (record s { worker = update s.worker i gone })
ends-Inv {n} {s} i lt e v h = record {
  valid = v.valid;
  fed = λ k. omega arith;
  all_there = λ k. cc;
  all_up = λ k. omega (arith, v.all_up k, down);
  left_empty = λ k. h.0;
  manager_full = v.manager_full;
  done_finished = v.done_finished;
  finished_done = v.finished_done;
}
  where
    down : number asleep n (update s.worker i gone) + 0 ≡ number asleep n s.worker + 0
    down = number-update_from asleep n s.worker i gone lt e

copies-Inv :
    {n : ℕ} {s : Crew} (i : ℕ) {x : BufferElement}
    → i < n
    → s.worker i ≡ copying x
    → Inv n s
    → Inv n (record s { worker = update s.worker i popping; copied = x ∷ s.copied })
copies-Inv {n} {s} i {x} lt e v = record {
  valid = v.valid;
  fed = λ k. omega (arith, v.fed, up, down);
  all_there = λ k. omega (arith, v.all_there k, up, down);
  all_up = λ k. omega (arith, v.all_up k, down);
  left_empty = λ k. v.left_empty (omega (arith, up, down));
  manager_full = v.manager_full;
  done_finished = v.done_finished;
  finished_done = v.finished_done;
}
  where
    up : number active n (update s.worker i popping) + 1 ≡ number active n s.worker + 1
    up = number-update_from active n s.worker i popping lt e

    down : number asleep n (update s.worker i popping) + 0 ≡ number asleep n s.worker + 0
    down = number-update_from asleep n s.worker i popping lt e

pub Step-Inv : {n : ℕ} {s t : Crew} → Step n s t → Inv n s → Inv n t
unfolding buffer_set_done
Step-Inv {s = s} (push_waits {x = x} m e h) v = push_waits-Inv v m (push_waits_facts s.buffer x h)
Step-Inv (pushes {xs = xs} m e h wk) v = pushes-Inv {xs = xs} v m (push_facts v.valid h) wk
Step-Inv {s = s} (marks m e h wk) v = marks-Inv v m e (ground arith) (ground arith) wk
Step-Inv {s = s} (pop_waits i lt e h) v = pop_waits-Inv i lt e v (pop_waits_facts s.buffer h)
Step-Inv (pops i lt e h wk) v = pops-Inv i lt e v (pop_facts v.valid h) wk
Step-Inv {n} {s} (ends i lt e h d) v =
    let (same, empty_now, done) = end_facts h in
    subst (λ c. Inv n (record s { buffer = c; worker = update s.worker i gone })) (sym same)
      (ends-Inv i lt e v (empty_now, done))
Step-Inv {n} {s} (retries i lt e h d) v =
    subst (λ c. Inv n (record s { buffer = c })) (sym (end_facts h).0) v
Step-Inv (copies i lt e) v = copies-Inv i lt e v

pub at_start-Inv :
    (n : ℕ) {b : Buffer} (files : List BufferElement)
    → IsValid b
    → b.done ≡ false
    → b.count ≡ 0
    → Inv n (at_start b files)
at_start-Inv n files v undone none = record {
  valid = v;
  fed = λ h. omega arith;
  all_there = λ h. omega (
    arith,
    number-const active n popping refl,
    number-eq-zero asleep n (λ _. popping) (λ i. refl),
  );
  all_up = λ h. cc;
  left_empty = λ h. none;
  manager_full = λ h. cc;
  done_finished = λ h. cc;
  finished_done = λ h. cc;
}

pub Run-Inv : {n : ℕ} {s : Crew} {k : ℕ} {t : Crew} → Run n s k t → Inv n s → Inv n t
Run-Inv stop v = v
Run-Inv (then r st) v = Step-Inv st (Run-Inv r v)
