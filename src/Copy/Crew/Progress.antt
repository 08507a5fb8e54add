-- ===== src/Copy/Crew/Progress.antt =====
-- The threads of the copier are never stuck.
use gtu_cse344_system_progra.Base.{
  ◌-◌, get_or, ◌%◌, set, leb, subst, ℕ, ◌+◌, ◌≤◌, ◌<◌, ◌≡◌, refl, false, ◌⊎◌, inl, inr, Bool-cases,
  some, none, List, [], ◌∷◌, arith,
}
use gtu_cse344_system_progra.Copy.Buffer.Defs.{
  no_element, no_wake, BufferElement, Buffer, empty, full, waits, returns, Wake, signal,
  buffer_push, buffer_pop, buffer_set_done, buffer_is_done,
}
use gtu_cse344_system_progra.Base.Family.{number, number-find, weight-le-number}
use gtu_cse344_system_progra.Copy.Crew.Defs.{
  ManagerPc, pushing, push_sleeps, finished, WorkerPc, popping, pop_sleeps, gone, copying, Crew,
  Wakes, wakes_manager, wakes_one, wakes_nobody, wakes_all, Step, push_waits, pushes, marks,
  pop_waits, pops, ends, retries, copies, at_start, Run,
}
use gtu_cse344_system_progra.Copy.Crew.Inv.{asleep, active, Inv}
use gtu_cse344_system_progra.Copy.Crew.Keeps.{at_start-Inv, Run-Inv}
use gtu_cse344_system_progra.Copy.Buffer.Inv.{IsValid}

-- The copier is through: the manager has finished, and every worker has gone.
abbrev pub IsThrough : ℕ → Crew → Type 0
IsThrough n s = (s.manager ≡ finished) × ((i : ℕ) → i < n → s.worker i ≡ gone)

abbrev Moves : ℕ → Crew → Type 0
Moves n s = (t : Crew) × Step n s t

push_cases :
    (b : Buffer) (x : BufferElement)
    → (buffer_push b x ≡ waits full)
      ⊎ ((b' : Buffer) × (buffer_push b x ≡ returns 1 (signal empty) b'))
unfolding buffer_push
push_cases b x = elim (Bool-cases (leb b.capacity b.count)) [
  | inl e ↦ inl (ground arith)
  | inr e ↦ inr (
    record b {
      items = set b.items b.in_index x;
      in_index = (b.in_index + 1) % b.capacity;
      count = b.count + 1;
    },
    ground arith,
  )
]

pop_cases :
    (b : Buffer)
    → (buffer_pop b ≡ waits empty)
      ⊎ ((w : Wake) × (b' : Buffer) × (buffer_pop b ≡ returns none w b'))
      ⊎ ((x : BufferElement) × (b' : Buffer) × (buffer_pop b ≡ returns (some x) (signal full) b'))
unfolding buffer_pop
pop_cases b = elim (Bool-cases (leb b.count 0)) [
  | inl e ↦ elim (Bool-cases b.done) [
    | inl d ↦ inr (inl (no_wake, b, ground arith))
    | inr d ↦ inl (ground arith)
  ]
  | inr e ↦ inr (
      inr (
        get_or b.items b.out_index no_element,
        record b { out_index = (b.out_index + 1) % b.capacity; count = b.count - 1 },
        ground arith,
      ))
]

signal-Wakes : (n : ℕ) (s : Crew) → (t : Crew) × Wakes n s (signal empty) t
signal-Wakes n s = elim (number-find asleep n s.worker) [
  | inl (i, lt, pos) ↦ (_, wakes_one i lt (is_asleep (s.worker i) pos))
  | inr none_asleep ↦ (s, wakes_nobody (λ i lt e. absurd (omega (arith, up i lt e, none_asleep))))
]
  where
    is_asleep : (p : WorkerPc) → 0 < asleep p → p ≡ pop_sleeps
    is_asleep popping h = absurd (omega arith)
    is_asleep pop_sleeps h = refl
    is_asleep gone h = absurd (omega arith)
    is_asleep (copying x) h = absurd (omega arith)

    up : (i : ℕ) → i < n → s.worker i ≡ pop_sleeps → 1 ≤ number asleep n s.worker
    up i lt e =
        subst (λ p. asleep p ≤ number asleep n s.worker) e (weight-le-number asleep n s.worker i lt)

manager_acts :
    (n : ℕ) (s : Crew) (todo : List BufferElement) → s.manager ≡ pushing → s.todo ≡ todo → Moves n s
unfolding buffer_set_done
manager_acts n s [] m e = (_, marks m e refl wakes_all)
manager_acts n s (x ∷ xs) m e = elim (push_cases s.buffer x) [
  | inl h ↦ (_, push_waits m e h)
  | inr (b, h) ↦
      let (t, wk) = signal-Wakes n (record s { buffer = b; todo = xs }) in (t, pushes m e h wk)
]

worker_acts :
    (n : ℕ) (s : Crew) (i : ℕ) (p : WorkerPc) → i < n → s.worker i ≡ p → 0 < active p → Moves n s
worker_acts n s i gone lt e h = absurd (omega arith)
worker_acts n s i pop_sleeps lt e h = absurd (omega arith)
worker_acts n s i (copying x) lt e h = (_, copies i lt e)
worker_acts n s i popping lt e h = elim (pop_cases s.buffer) [
  | inl f ↦ (_, pop_waits i lt e f)
  | inr (inl (w, b, f)) ↦ elim (Bool-cases (buffer_is_done b)) [
    | inl d ↦ (_, ends i lt e f d)
    | inr d ↦ (_, retries i lt e f d)
  ]
  | inr (inr (x, b, f)) ↦ (_, pops i lt e f wakes_manager)
]

stands_gone :
    (n : ℕ) (f : ℕ → WorkerPc)
    → number active n f ≡ 0
    → number asleep n f ≡ 0
    → (i : ℕ) → i < n
    → f i ≡ gone
stands_gone n f a z i lt =
    is_gone (f i) (omega (arith, weight-le-number active n f i lt))
      (omega (arith, weight-le-number asleep n f i lt))
  where
    is_gone : (p : WorkerPc) → active p ≡ 0 → asleep p ≡ 0 → p ≡ gone
    is_gone popping h k = absurd (omega arith)
    is_gone pop_sleeps h k = absurd (omega arith)
    is_gone gone h k = refl
    is_gone (copying x) h k = absurd (omega arith)

-- Where no worker is up, the manager does not sleep.
nobody_up :
    {n : ℕ} {s : Crew} (m : ManagerPc)
    → Inv n s
    → 0 < n
    → number active n s.worker ≡ 0
    → s.manager ≡ m
    → Moves n s ⊎ IsThrough n s
nobody_up {n} {s} pushing v some_worker zeros e = inl (manager_acts n s s.todo e refl)
nobody_up {n} {s} push_sleeps v some_worker zeros e = absurd (elim (Bool-cases s.buffer.done) [
  | inl d ↦ cc (v.done_finished d)
  | inr d ↦ omega (arith, v.all_there d, v.fed, v.manager_full e, v.valid.positive)
])
nobody_up {n} {s} finished v some_worker zeros e =
    inr (e, stands_gone n s.worker zeros (v.all_up (v.finished_done e).0))

-- With at least one worker, whatever the threads have done from the start with a valid buffer that
-- is open and empty, one of them can take a step, or the manager has finished and all workers have
-- gone: no thread sleeps for good.
pub never_stuck :
    (n : ℕ) {b : Buffer} (files : List BufferElement) {k : ℕ} {s : Crew}
    → 0 < n
    → IsValid b
    → b.done ≡ false
    → b.count ≡ 0
    → Run n (at_start b files) k s
    → ((t : Crew) × Step n s t) ⊎ IsThrough n s
never_stuck n files {s = s} some_worker v undone bare r =
    let inv = Run-Inv r (at_start-Inv n files v undone bare) in
    elim (number-find active n s.worker) [
      | inl (i, lt, pos) ↦ inl (worker_acts n s i (s.worker i) lt refl pos)
      | inr zeros ↦ nobody_up s.manager inv some_worker zeros refl
    ]
