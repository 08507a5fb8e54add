-- ===== src/Copy/Crew/Inv.antt =====
-- What holds in every reachable state of the copier's threads.
use gtu_cse344_system_progra.Base.{
  ℕ, ◌+◌, ◌≤◌, ◌<◌, ◌≡◌, ◌≢◌, refl, ap, sym, ◌∙◌, true, false, List, [], arith, subst,
}
use gtu_cse344_system_progra.Base.Family.{
  update, number, number-update, number-eq-zero, number-eq-zero_below, number-map,
}
use gtu_cse344_system_progra.Copy.Buffer.Defs.{BufferElement, Buffer, Wake, broadcast, empty}
use gtu_cse344_system_progra.Copy.Buffer.Inv.{IsValid}
use gtu_cse344_system_progra.Copy.Crew.Defs.{
  ManagerPc, pushing, push_sleeps, finished, WorkerPc, popping, pop_sleeps, gone, copying, Crew,
  wake_manager, wake_worker, Wakes, wakes_none, wakes_manager, wakes_one, wakes_nobody, wakes_all,
}
use gtu_cse344_system_progra.Copy.Crew.Facts.{Pushed, Popped}

abbrev pub asleep : WorkerPc → ℕ
asleep popping = 0
asleep pop_sleeps = 1
asleep gone = 0
asleep (copying x) = 0

abbrev pub active : WorkerPc → ℕ
active popping = 1
active pop_sleeps = 0
active gone = 0
active (copying x) = 1

-- While workers sleep, the elements in the buffer are no more than the workers that are up: no
-- wake-up is lost. The manager sleeps at a full buffer only.
pub record Inv (n : ℕ) (s : Crew) : Type 0 where
  pub valid : IsValid s.buffer
  pub fed : 0 < number asleep n s.worker → s.buffer.count ≤ number active n s.worker
  pub all_there : s.buffer.done ≡ false → number active n s.worker + number asleep n s.worker ≡ n
  pub all_up : s.buffer.done ≡ true → number asleep n s.worker ≡ 0
  pub left_empty : number active n s.worker + number asleep n s.worker < n → s.buffer.count ≡ 0
  pub manager_full : s.manager ≡ push_sleeps → s.buffer.count ≡ s.buffer.capacity
  pub done_finished : s.buffer.done ≡ true → s.manager ≡ finished
  pub finished_done : s.manager ≡ finished → (s.buffer.done ≡ true) × (s.todo ≡ [])

pub number-update_from :
    (w : WorkerPc → ℕ) (n : ℕ) (f : ℕ → WorkerPc) (i : ℕ) {p : WorkerPc} (a : WorkerPc)
    → i < n
    → f i ≡ p
    → number w n (update f i a) + w p ≡ number w n f + w a
number-update_from w n f i {p} a lt e =
    subst (λ q. number w n (update f i a) + w q ≡ number w n f + w a) e (number-update w n f i a lt)

asleep_other : (p : WorkerPc) → p ≢ pop_sleeps → asleep p ≡ 0
asleep_other popping h = refl
asleep_other pop_sleeps h = absurd (h refl)
asleep_other gone h = refl
asleep_other (copying x) h = refl

asleep-wake_worker : (p : WorkerPc) → asleep (wake_worker p) ≡ 0
asleep-wake_worker popping = refl
asleep-wake_worker pop_sleeps = refl
asleep-wake_worker gone = refl
asleep-wake_worker (copying x) = refl

active-wake_worker : (p : WorkerPc) → active (wake_worker p) ≡ active p + asleep p
active-wake_worker popping = refl
active-wake_worker pop_sleeps = refl
active-wake_worker gone = refl
active-wake_worker (copying x) = refl

pub pushes-Inv :
    {n : ℕ} {s t : Crew} {w : Wake} {b : Buffer} {x : BufferElement} {xs : List BufferElement}
    → Inv n s
    → s.manager ≡ pushing
    → Pushed s.buffer x w b
    → Wakes n (record s { buffer = b; todo = xs }) w t
    → Inv n t
pushes-Inv v m p wakes_none = absurd (cc p.wakes)
pushes-Inv v m p wakes_manager = absurd (cc p.wakes)
pushes-Inv v m p wakes_all = absurd (cc p.wakes)
pushes-Inv {n} {s} v m p (wakes_one i lt e) = record {
  valid = p.valid;
  fed = λ h. omega (arith, v.fed, p.grows, up, down);
  all_there = λ h. omega (arith, v.all_there (sym p.same_done ∙ h), up, down);
  all_up = λ h. absurd (cc (v.done_finished (sym p.same_done ∙ h)));
  left_empty = λ h. absurd (omega (arith, v.all_there not_done, up, down));
  manager_full = λ h. cc;
  done_finished = λ h. v.done_finished (sym p.same_done ∙ h);
  finished_done = λ h. cc;
}
  where
    up : number active n (update s.worker i popping) + 0 ≡ number active n s.worker + 1
    up = number-update_from active n s.worker i popping lt e

    down : number asleep n (update s.worker i popping) + 1 ≡ number asleep n s.worker + 0
    down = number-update_from asleep n s.worker i popping lt e

    not_done : s.buffer.done ≡ false
    not_done = ground (arith, v.done_finished)
pushes-Inv {n} {s} v m p (wakes_nobody none) = record {
  valid = p.valid;
  fed = λ h. absurd (omega (arith, zeros));
  all_there = λ h. v.all_there (sym p.same_done ∙ h);
  all_up = λ h. zeros;
  left_empty = λ h. absurd (omega (arith, v.all_there not_done));
  manager_full = λ h. cc;
  done_finished = λ h. v.done_finished (sym p.same_done ∙ h);
  finished_done = λ h. cc;
}
  where
    zeros : number asleep n s.worker ≡ 0
    zeros = number-eq-zero_below asleep n s.worker (λ i lt. asleep_other (s.worker i) (none i lt))

    not_done : s.buffer.done ≡ false
    not_done = ground (arith, v.done_finished)

pub pops-Inv :
    {n : ℕ} {s : Crew} {w : Wake} {b : Buffer} {x : BufferElement} (i : ℕ) {t : Crew}
    → i < n
    → s.worker i ≡ popping
    → Inv n s
    → Popped s.buffer x w b
    → Wakes n (record s { buffer = b; worker = update s.worker i (copying x) }) w t
    → Inv n t
pops-Inv i lt e v p wakes_none = absurd (cc p.wakes)
pops-Inv i lt e v p (wakes_one j less f) = absurd (cc p.wakes)
pops-Inv i lt e v p (wakes_nobody nobody) = absurd (cc p.wakes)
pops-Inv i lt e v p wakes_all = absurd (cc p.wakes)
pops-Inv {n} {s} {x = x} i lt e v p wakes_manager = record {
  valid = p.valid;
  fed = λ h. omega (arith, v.fed, p.shrinks, up, down);
  all_there = λ h. omega (arith, v.all_there (sym p.same_done ∙ h), up, down);
  all_up = λ h. omega (arith, v.all_up (sym p.same_done ∙ h), down);
  left_empty = λ h. absurd (omega (arith, v.left_empty, p.shrinks, up, down));
  manager_full = λ h. absurd (awake s.manager h);
  done_finished = λ h. ap wake_manager (v.done_finished (sym p.same_done ∙ h));
  finished_done = λ h. let (d, e) = v.finished_done (still s.manager h) in (p.same_done ∙ d, e);
}
  where
    up : number active n (update s.worker i (copying x)) + 1 ≡ number active n s.worker + 1
    up = number-update_from active n s.worker i (copying x) lt e

    down : number asleep n (update s.worker i (copying x)) + 0 ≡ number asleep n s.worker + 0
    down = number-update_from asleep n s.worker i (copying x) lt e

    awake : (m : ManagerPc) → wake_manager m ≡ push_sleeps → ⊥
    awake pushing h = cc
    awake push_sleeps h = cc
    awake finished h = cc

    still : (m : ManagerPc) → wake_manager m ≡ finished → m ≡ finished
    still pushing h = cc
    still push_sleeps h = cc
    still finished h = refl

pub marks-Inv :
    {n : ℕ} {s t : Crew} {w : Wake} {b : Buffer}
    → Inv n s
    → s.manager ≡ pushing
    → s.todo ≡ []
    → b ≡ record s.buffer { done = true }
    → w ≡ broadcast empty
    → Wakes n (record s { buffer = b; manager = finished }) w t
    → Inv n t
marks-Inv v m none same w wakes_none = cc
marks-Inv v m none same w wakes_manager = cc
marks-Inv v m none same w (wakes_one i lt e) = cc
marks-Inv v m none same w (wakes_nobody nobody) = cc
marks-Inv {n} {s} v m none same w wakes_all = record {
  valid = subst IsValid (sym same) (ground (arith, v.valid));
  fed = λ h. absurd (omega (arith, sleepless));
  all_there = λ h. cc;
  all_up = λ h. sleepless;
  left_empty = λ h. absurd (omega (arith, v.all_there not_done, sleepless, moved));
  manager_full = λ h. cc;
  done_finished = λ h. refl;
  finished_done = λ h. (ap (λ (c : Buffer). c.done) same, none);
}
  where
    sleepless : number asleep n (λ i. wake_worker (s.worker i)) ≡ 0
    sleepless =
        number-eq-zero asleep n (λ i. wake_worker (s.worker i))
          (λ i. asleep-wake_worker (s.worker i))

    moved :
        number active n (λ i. wake_worker (s.worker i))
        ≡ number active n s.worker + number asleep n s.worker
    moved = number-map active active asleep wake_worker active-wake_worker n s.worker

    not_done : s.buffer.done ≡ false
    not_done = ground (arith, v.done_finished)
