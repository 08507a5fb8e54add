-- ===== src/Copy/Barrier/Store.antt =====
-- The buffer of HW5/src/buffer.h and HW5/src/buffer.c, which carries the barrier of the program
-- along. Elements are those of HW4.
pub mod Same
use gtu_cse344_system_progra.Base.{
  ℕ, ◌+◌, ◌-◌, ◌%◌, Bool, true, false, not, ◌&&◌, Option, some, none, List, leb, get_or, set,
  if◌then◌else◌,
}
use gtu_cse344_system_progra.Copy.Buffer.Defs.{
  BufferElement, empty, full, no_wake, signal, broadcast, Attempt, waits, returns, no_element,
}

-- `barrier` names a barrier of the program.
pub record Buffer : Type 0 where
  pub items : List BufferElement
  pub capacity : ℕ
  pub in_index : ℕ
  pub out_index : ℕ
  pub count : ℕ
  pub done : Bool
  pub barrier : ℕ

-- `storage` is what `malloc` returned, `none` for NULL: then the program cleans up and exits.
unfoldable pub init_buffer : Option (List BufferElement) → ℕ → ℕ → Option Buffer
init_buffer none size barrier = none
init_buffer (some storage) size barrier = some (record {
  items = storage;
  capacity = size;
  in_index = 0;
  out_index = 0;
  count = 0;
  done = false;
  barrier = barrier;
})

unfoldable pub buffer_push : Buffer → BufferElement → Attempt Buffer ℕ
buffer_push buffer item =
    if leb buffer.capacity buffer.count
    then waits full
    else returns 1 (signal empty) (record buffer {
      items = set buffer.items buffer.in_index item;
      in_index = (buffer.in_index + 1) % buffer.capacity;
      count = buffer.count + 1;
    })

-- The popped element goes through `*item`; `none` is the return value 0.
unfoldable pub buffer_pop : Buffer → Attempt Buffer (Option BufferElement)
buffer_pop buffer =
    if leb buffer.count 0 && not buffer.done
    then waits empty
    else if leb buffer.count 0 && buffer.done
    then returns none no_wake buffer
    else returns (some (get_or buffer.items buffer.out_index no_element)) (signal full)
        (record buffer {
          out_index = (buffer.out_index + 1) % buffer.capacity;
          count = buffer.count - 1;
        })

unfoldable pub buffer_set_done : Buffer → Attempt Buffer (Unit {0})
buffer_set_done buffer = returns tt (broadcast empty) (record buffer { done = true })

unfoldable pub buffer_is_done : Buffer → Bool
buffer_is_done buffer = buffer.done
