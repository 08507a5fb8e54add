-- ===== src/Copy/Buffer/Inv.antt =====
-- The representation invariant of the buffer, and that every operation of `buffer.c` keeps it.
use gtu_cse344_system_progra.Base.{
  ℕ, ◌+◌, ◌%◌, ◌≤◌, ◌<◌, ◌≡◌, some, List, length, length-set, arith,
}
use gtu_cse344_system_progra.Base.Ring.{wrap, mod-eq-wrap}
use gtu_cse344_system_progra.Copy.Buffer.Defs.{
  BufferElement, Buffer, Attempt, waits, returns, init_buffer, buffer_push, buffer_pop,
}

-- `in` is where the element behind the last one goes.
pub record IsValid (b : Buffer) : Type 0 where
  pub positive : 0 < b.capacity
  pub storage : b.capacity ≤ length b.items
  pub out_in : b.out_index < b.capacity
  pub count_in : b.count ≤ b.capacity
  pub next : b.in_index ≡ wrap b.capacity (b.out_index + b.count)

-- What an attempt leaves behind when it returns.
abbrev pub Leaves : {A : Type 0} → (Buffer → Type 0) → Attempt Buffer A → Type 0
Leaves P (waits c) = Unit
Leaves P (returns a w b) = P b

-- The new `in` and `out`, without the remainder.
pub in-next :
    {b : Buffer} → IsValid b → (b.in_index + 1) % b.capacity ≡ wrap b.capacity (b.in_index + 1)
in-next {b} v = mod-eq-wrap b.capacity (b.in_index + 1) v.positive (ground arith)

pub out-next :
    {b : Buffer} → IsValid b → (b.out_index + 1) % b.capacity ≡ wrap b.capacity (b.out_index + 1)
out-next {b} v = mod-eq-wrap b.capacity (b.out_index + 1) v.positive (ground arith)

pub init_buffer-IsValid :
    (storage : List BufferElement) (size : ℕ) {b : Buffer}
    → 0 < size
    → size ≤ length storage
    → init_buffer (some storage) size ≡ some b
    → IsValid b
unfolding init_buffer
init_buffer-IsValid storage size pos big e = ground arith

pub buffer_push-IsValid :
    {b : Buffer} (x : BufferElement) → IsValid b → Leaves IsValid (buffer_push b x)
unfolding buffer_push
buffer_push-IsValid {b} x v = ground (arith, length-set b.items b.in_index x, in-next v)

pub buffer_pop-IsValid : {b : Buffer} → IsValid b → Leaves IsValid (buffer_pop b)
unfolding buffer_pop
buffer_pop-IsValid {b} v = ground (arith, out-next v)
