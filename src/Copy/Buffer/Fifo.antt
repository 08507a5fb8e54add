-- ===== src/Copy/Buffer/Fifo.antt =====
-- The contract of HW4/src/buffer.c: a bounded queue with an end mark.
use gtu_cse344_system_progra.Base.{
  ℕ, ◌≡◌, Bool, true, false, Option, none, some, List, [], ◌∷◌, ◌++◌, length, leb, arith,
  if◌then◌else◌,
}
use gtu_cse344_system_progra.Base.Ring.{slots, length-slots, slots-set_next, slots_of_pos}
use gtu_cse344_system_progra.Copy.Buffer.Defs.{
  BufferElement, Buffer, empty, full, no_wake, signal, broadcast, Attempt, waits, returns,
  no_element, buffer_push, buffer_pop,
}
use gtu_cse344_system_progra.Copy.Buffer.Inv.{IsValid, in-next, out-next}

-- What a caller may know of the buffer: the elements in it, oldest first, and the end mark.
pub record Fifo : Type 0 where
  pub queue : List BufferElement
  pub ended : Bool

abbrev pub contents : Buffer → List BufferElement
contents b = slots no_element b.capacity b.items b.out_index b.count

abbrev pub view : Buffer → Fifo
view b = record { queue = contents b; ended = b.done }

abbrev pub view_attempt : {A : Type 0} → Attempt Buffer A → Attempt Fifo A
view_attempt (waits c) = waits c
view_attempt (returns a w b) = returns a w (view b)

-- The specification: a push sleeps while `cap` elements are in, a pop while none is and the end is
-- not marked; a pop after the end of an empty queue gives nothing.
unfoldable pub push : ℕ → Fifo → BufferElement → Attempt Fifo ℕ
push cap s x =
    if leb cap (length s.queue)
    then waits full
    else returns 1 (signal empty) (record s { queue = s.queue ++ (x ∷ []) })

take_first : List BufferElement → Bool → Attempt Fifo (Option BufferElement)
take_first [] false = waits empty
take_first [] true = returns none no_wake (record { queue = []; ended = true })
take_first (x ∷ q) e = returns (some x) (signal full) (record { queue = q; ended = e })

unfoldable pub pop : Fifo → Attempt Fifo (Option BufferElement)
unfolding take_first
pop s = take_first s.queue s.ended

unfoldable pub set_done : Fifo → Attempt Fifo (Unit {0})
set_done s = returns tt (broadcast empty) (record s { ended = true })

-- `buffer_push` sleeps, returns and wakes exactly as the bounded queue does, and leaves the buffer
-- holding what the queue holds.
pub buffer_push_refines :
    {b : Buffer} (x : BufferElement)
    → IsValid b
    → view_attempt (buffer_push b x) ≡ push b.capacity (view b) x
unfolding buffer_push push
buffer_push_refines {b} x v = ground (
  arith,
  in-next v,
  length-slots no_element b.capacity b.items b.out_index b.count,
  slots-set_next no_element b.capacity b.items x b.out_index b.count b.in_index,
)

-- `buffer_pop` sleeps, ends, or hands out the oldest element, exactly as the bounded queue does.
pub buffer_pop_refines : {b : Buffer} → IsValid b → view_attempt (buffer_pop b) ≡ pop (view b)
unfolding buffer_pop pop
buffer_pop_refines {b} v =
    ground (arith, out-next v, slots_of_pos no_element b.capacity b.items b.out_index b.count)
