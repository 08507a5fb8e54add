-- ===== src/Copy/Buffer/History.antt =====
-- Sequences of attempts on one buffer, by the manager and any number of workers in any order.
use mathlib.Core.List.{append-nil, append_assoc}
use mathlib.Core.Path.{◌≡⟨◌⟩◌, ◌∎}
use gtu_cse344_system_progra.Base.Ring.{length-slots}
use gtu_cse344_system_progra.Base.{
  ℕ, ◌≡◌, refl, ap, ◌∙◌, Option, none, some, List, [], ◌∷◌, ◌++◌, sym, subst, subst, length, ◌≤◌,
  arith,
}
use gtu_cse344_system_progra.Copy.Buffer.Defs.{
  BufferElement, Buffer, Condition, Attempt, waits, returns, no_element, buffer_push, buffer_pop,
  buffer_set_done,
}
use gtu_cse344_system_progra.Copy.Buffer.Inv.{
  IsValid, Leaves, buffer_push-IsValid, buffer_pop-IsValid,
}
use gtu_cse344_system_progra.Copy.Buffer.Fifo
use gtu_cse344_system_progra.Copy.Buffer.Fifo.{
  Fifo, contents, view, view_attempt, buffer_push_refines, buffer_pop_refines,
}

pub data Call : Type 0 where
  push : BufferElement → Call
  pop set_done : Call

-- What a thread sees of its attempt.
pub data Event : Type 0 where
  slept : Condition → Event
  pushed popped : BufferElement → Event
  ended marked : Event

abbrev pub push_event : BufferElement → ℕ → Event
push_event x r = pushed x

abbrev pub pop_event : Option BufferElement → Event
pop_event none = ended
pop_event (some x) = popped x

abbrev pub mark_event : Unit {0} → Event
mark_event u = marked

-- The event of an attempt with the state after it: an attempt that sleeps changes nothing.
abbrev pub settle : {S A : Type 0} → (A → Event) → S → Attempt S A → Event × S
settle f s (waits c) = (slept c, s)
settle f s (returns a w s') = (f a, s')

unfoldable pub step : Buffer → Call → Event × Buffer
step b (push x) = settle (push_event x) b (buffer_push b x)
step b pop = settle pop_event b (buffer_pop b)
step b set_done = settle mark_event b (buffer_set_done b)

unfoldable pub run : Buffer → List Call → List Event × Buffer
unfolding step
run b [] = ([], b)
run b (c ∷ cs) = let (e, b') = step b c in let (es, b'') = run b' cs in (e ∷ es, b'')

unfoldable pub fifo_step : ℕ → Fifo → Call → Event × Fifo
fifo_step cap s (push x) = settle (push_event x) s (Fifo.push cap s x)
fifo_step cap s pop = settle pop_event s (Fifo.pop s)
fifo_step cap s set_done = settle mark_event s (Fifo.set_done s)

unfoldable pub fifo_run : ℕ → Fifo → List Call → List Event × Fifo
unfolding fifo_step
fifo_run cap s [] = ([], s)
fifo_run cap s (c ∷ cs) =
    let (e, s') = fifo_step cap s c in let (es, s'') = fifo_run cap s' cs in (e ∷ es, s'')

-- The elements that went in, and those that came out, in order.
abbrev pub pushed_of : List Event → List BufferElement
pushed_of [] = []
pushed_of (pushed x ∷ es) = x ∷ pushed_of es
pushed_of (_ ∷ es) = pushed_of es

abbrev pub popped_of : List Event → List BufferElement
popped_of [] = []
popped_of (popped x ∷ es) = x ∷ popped_of es
popped_of (_ ∷ es) = popped_of es

settle_seen :
    {A : Type 0} (f : A → Event) (b : Buffer) (a : Attempt Buffer A)
    → let (e, b') = settle f b a in (e, view b') ≡ settle f (view b) (view_attempt a)
settle_seen f b (waits c) = refl
settle_seen f b (returns a w s) = refl

settle-IsValid :
    {A : Type 0} (f : A → Event) (b : Buffer) (a : Attempt Buffer A)
    → IsValid b
    → Leaves IsValid a
    → IsValid (settle f b a).1
settle-IsValid f b (waits c) v l = v
settle-IsValid f b (returns a w s) v l = l

pub step-IsValid : {b : Buffer} (c : Call) → IsValid b → IsValid (step b c).1
unfolding step buffer_set_done
step-IsValid {b} (push x) v =
    settle-IsValid (push_event x) b (buffer_push b x) v (buffer_push-IsValid x v)
step-IsValid {b} pop v = settle-IsValid pop_event b (buffer_pop b) v (buffer_pop-IsValid v)
step-IsValid {b} set_done v = ground arith

step_refines :
    {b : Buffer} (c : Call)
    → IsValid b
    → let (e, b') = step b c in (e, view b') ≡ fifo_step b.capacity (view b) c
unfolding step fifo_step buffer_set_done Fifo.set_done
step_refines {b} (push x) v =
    settle_seen (push_event x) b (buffer_push b x)
    ∙ ap (settle (push_event x) (view b)) (buffer_push_refines x v)
step_refines {b} pop v =
    settle_seen pop_event b (buffer_pop b) ∙ ap (settle pop_event (view b)) (buffer_pop_refines v)
step_refines set_done v = refl

capacity-step : (b : Buffer) (c : Call) → (step b c).1.capacity ≡ b.capacity
unfolding step buffer_push buffer_pop buffer_set_done
capacity-step b (push x) = ground arith
capacity-step b pop = ground arith
capacity-step b set_done = refl

run_refines_at :
    (b : Buffer) (limit : ℕ) (cs : List Call)
    → IsValid b
    → b.capacity ≡ limit
    → let (es, b') = run b cs in (es, view b') ≡ fifo_run limit (view b) cs
unfolding run fifo_run
run_refines_at b room [] v same = refl
run_refines_at b room (c ∷ cs) v same =
    ap (λ (r : List Event × Fifo). ((step b c).0 ∷ r.0, r.1))
      (run_refines_at (step b c).1 room cs (step-IsValid c v) (capacity-step b c ∙ same))
    ∙ ap after (step_refines c v ∙ ap (λ k. fifo_step k (view b) c) same)
  where
    after : Event × Fifo → List Event × Fifo
    after (e, s) = let (es, s') = fifo_run room s cs in (e ∷ es, s')

-- From a valid buffer, whatever order the threads come in, they see what they would see of the
-- bounded queue, and the buffer holds what that queue holds.
pub run_refines :
    (b : Buffer) (cs : List Call)
    → IsValid b
    → let (es, b') = run b cs in (es, view b') ≡ fifo_run b.capacity (view b) cs
run_refines b cs v = run_refines_at b b.capacity cs v refl

fifo_step_order :
    (cap : ℕ) (s : Fifo) (c : Call)
    → let (e, s') = fifo_step cap s c in
      s.queue ++ pushed_of (e ∷ []) ≡ popped_of (e ∷ []) ++ s'.queue
unfolding fifo_step Fifo.push Fifo.pop Fifo.set_done
fifo_step_order cap s (push x) = ground (arith, append-nil s.queue)
fifo_step_order cap s pop = ground (arith, append-nil s.queue)
fifo_step_order cap s set_done = append-nil s.queue

pushed_of-cons :
    (e : Event) (es : List Event) → pushed_of (e ∷ es) ≡ pushed_of (e ∷ []) ++ pushed_of es
pushed_of-cons (pushed x) es = refl
pushed_of-cons _ es = refl

popped_of-cons :
    (e : Event) (es : List Event) → popped_of (e ∷ es) ≡ popped_of (e ∷ []) ++ popped_of es
popped_of-cons (popped x) es = refl
popped_of-cons _ es = refl

fifo_run_order :
    (limit : ℕ) (s : Fifo) (cs : List Call)
    → let (es, s') = fifo_run limit s cs in s.queue ++ pushed_of es ≡ popped_of es ++ s'.queue
unfolding fifo_run
fifo_run_order limit s [] = append-nil s.queue
fifo_run_order limit s (c ∷ cs) =
    s.queue ++ pushed_of (e ∷ es)
    ≡⟨ ap (λ l. s.queue ++ l) (pushed_of-cons e es) ⟩
      s.queue ++ (pushed_of (e ∷ []) ++ pushed_of es)
    ≡⟨ sym (append_assoc s.queue (pushed_of (e ∷ [])) (pushed_of es)) ⟩
      (s.queue ++ pushed_of (e ∷ [])) ++ pushed_of es
    ≡⟨ ap (λ l. l ++ pushed_of es) (fifo_step_order limit s c) ⟩
      (popped_of (e ∷ []) ++ s'.queue) ++ pushed_of es
    ≡⟨ append_assoc (popped_of (e ∷ [])) s'.queue (pushed_of es) ⟩
      popped_of (e ∷ []) ++ (s'.queue ++ pushed_of es)
    ≡⟨ ap (λ l. popped_of (e ∷ []) ++ l) (fifo_run_order limit s' cs) ⟩
      popped_of (e ∷ []) ++ (popped_of es ++ s''.queue)
    ≡⟨ sym (append_assoc (popped_of (e ∷ [])) (popped_of es) s''.queue) ⟩
      (popped_of (e ∷ []) ++ popped_of es) ++ s''.queue
    ≡⟨ ap (λ l. l ++ s''.queue) (sym (popped_of-cons e es)) ⟩ popped_of (e ∷ es) ++ s''.queue ∎
  where
    e : Event
    e = (fifo_step limit s c).0

    s' : Fifo
    s' = (fifo_step limit s c).1

    es : List Event
    es = (fifo_run limit s' cs).0

    s'' : Fifo
    s'' = (fifo_run limit s' cs).1

-- From a valid buffer, in any interleaving the elements leave in the order in which they went in,
-- none lost and none twice: those in the buffer at first and those pushed are those popped and
-- those still in it.
pub run_order :
    (b : Buffer) (cs : List Call)
    → IsValid b
    → let (es, b') = run b cs in contents b ++ pushed_of es ≡ popped_of es ++ contents b'
run_order b cs v =
    let same = run_refines b cs v in
    subst (λ (r : List Event × Fifo). contents b ++ pushed_of r.0 ≡ popped_of r.0 ++ r.1.queue)
      (sym same) (fifo_run_order b.capacity (view b) cs)

-- From a valid buffer, every interleaving keeps it valid, and never more than `capacity` elements
-- are in it.
pub run-IsValid :
    (b : Buffer) (cs : List Call)
    → IsValid b
    → let b' = (run b cs).1 in IsValid b' × (length (contents b') ≤ b'.capacity)
unfolding run
run-IsValid b [] v =
    (v, omega (arith, length-slots no_element b.capacity b.items b.out_index b.count, v.count_in))
run-IsValid b (c ∷ cs) v = run-IsValid (step b c).1 cs (step-IsValid c v)
