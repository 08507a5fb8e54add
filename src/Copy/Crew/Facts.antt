-- ===== src/Copy/Crew/Facts.antt =====
-- What a return value of an operation of the buffer says about the buffers before and after it.
use gtu_cse344_system_progra.Base.{
  ℕ, ◌+◌, ◌≤◌, ◌≡◌, ap, sym, ◌∙◌, true, false, some, none, [], ◌∷◌, ◌++◌, arith, subst,
}
use gtu_cse344_system_progra.Copy.Buffer.Defs.{
  BufferElement, Buffer, empty, full, Wake, signal, waits, returns, buffer_push, buffer_pop,
}
use gtu_cse344_system_progra.Copy.Buffer.Inv.{
  IsValid, Leaves, buffer_push-IsValid, buffer_pop-IsValid,
}
use gtu_cse344_system_progra.Copy.Buffer.Fifo
use gtu_cse344_system_progra.Copy.Buffer.Fifo.{
  contents, view, view_attempt, buffer_push_refines, buffer_pop_refines,
}

pub record Pushed (b : Buffer) (x : BufferElement) (w : Wake) (b' : Buffer) : Type 0 where
  pub valid : IsValid b'
  pub wakes : w ≡ signal empty
  pub grows : b'.count ≡ b.count + 1
  pub same_done : b'.done ≡ b.done
  pub last : contents b' ≡ contents b ++ (x ∷ [])

push-contents :
    (b b' : Buffer) (x : BufferElement) {r : ℕ} {w : Wake}
    → returns r w (view b') ≡ Fifo.push b.capacity (view b) x
    → contents b' ≡ contents b ++ (x ∷ [])
unfolding Fifo.push
push-contents b b' x h = ground arith

pub push_facts :
    {b b' : Buffer} {x : BufferElement} {r : ℕ} {w : Wake}
    → IsValid b
    → buffer_push b x ≡ returns r w b'
    → Pushed b x w b'
unfolding buffer_push
push_facts {b} {b'} {x} {r} {w} v h = record {
  valid = subst (Leaves IsValid) h (buffer_push-IsValid x v);
  wakes = ground arith;
  grows = ground arith;
  same_done = ground arith;
  last = push-contents b b' x (ap view_attempt (sym h) ∙ buffer_push_refines x v);
}

pub record Popped (b : Buffer) (x : BufferElement) (w : Wake) (b' : Buffer) : Type 0 where
  pub valid : IsValid b'
  pub wakes : w ≡ signal full
  pub shrinks : b.count ≡ b'.count + 1
  pub same_done : b'.done ≡ b.done
  pub first : contents b ≡ x ∷ contents b'

take-first :
    (b b' : Buffer) (x : BufferElement) {w : Wake}
    → returns (some x) w (view b') ≡ Fifo.pop (view b)
    → contents b ≡ x ∷ contents b'
unfolding Fifo.pop
take-first b b' x h = ground arith

pub pop_facts :
    {b b' : Buffer} {x : BufferElement} {w : Wake}
    → IsValid b
    → buffer_pop b ≡ returns (some x) w b'
    → Popped b x w b'
unfolding buffer_pop
pop_facts {b} {b'} {x} {w} v h = record {
  valid = subst (Leaves IsValid) h (buffer_pop-IsValid v);
  wakes = ground arith;
  shrinks = ground arith;
  same_done = ground arith;
  first = take-first b b' x (ap view_attempt (sym h) ∙ buffer_pop_refines v);
}

pub end_facts :
    {b b' : Buffer} {w : Wake}
    → buffer_pop b ≡ returns none w b'
    → (b' ≡ b) × (b.count ≡ 0) × (b.done ≡ true)
unfolding buffer_pop
end_facts h = ground arith

pub pop_waits_facts : (b : Buffer) → buffer_pop b ≡ waits empty → (b.count ≡ 0) × (b.done ≡ false)
unfolding buffer_pop
pop_waits_facts b h = ground arith

pub push_waits_facts :
    (b : Buffer) (x : BufferElement) → buffer_push b x ≡ waits full → b.capacity ≤ b.count
unfolding buffer_push
push_waits_facts b x h = ground arith
