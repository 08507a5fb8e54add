-- ===== src/Copy/Buffer/Defs.antt =====
-- The types of HW4/src/buffer.h and the functions of HW4/src/buffer.c.
use gtu_cse344_system_progra.Base.{
  ℕ, ◌+◌, ◌-◌, ◌%◌, Bool, true, false, not, ◌&&◌, Option, some, none, List, leb, get_or, set,
  if◌then◌else◌,
}

-- A file name is the list of its bytes.
pub record BufferElement : Type 0 where
  pub src_fd : ℕ
  pub dest_fd : ℕ
  pub filename : List ℕ

-- The mutex and the condition variables have no field: see `Attempt`.
pub record Buffer : Type 0 where
  pub items : List BufferElement
  pub capacity : ℕ
  pub in_index : ℕ
  pub out_index : ℕ
  pub count : ℕ
  pub done : Bool

pub data Condition : Type 0 where
  empty full : Condition

-- `pthread_cond_signal` and `pthread_cond_broadcast`.
pub data Wake : Type 0 where
  no_wake : Wake
  signal broadcast : Condition → Wake

-- One attempt at an operation on a state of type `S`.
pub data Attempt (S A : Type 0) : Type 0 where
  waits : Condition → Attempt S A
  returns : A → Wake → S → Attempt S A

-- What an index outside the array reads.
abbrev pub no_element : BufferElement
no_element = record { src_fd = 0; dest_fd = 0; filename = List.[] }

-- `storage` is what `malloc` returned, `none` for NULL: then the program cleans up and exits.
unfoldable pub init_buffer : Option (List BufferElement) → ℕ → Option Buffer
init_buffer none size = none
init_buffer (some storage) size = some (record {
  items = storage;
  capacity = size;
  in_index = 0;
  out_index = 0;
  count = 0;
  done = false;
})

unfoldable pub buffer_push : Buffer → BufferElement → Attempt Buffer ℕ
buffer_push buffer item =
    if leb buffer.capacity buffer.count
    then waits full
    else returns 1 (signal empty) (record buffer {
      items = set buffer.items buffer.in_index item;
      in_index = (buffer.in_index + 1) % buffer.capacity;
      count = buffer.count + 1;
    })

-- The popped element goes through `*item`; `none` is the return value 0.
unfoldable pub buffer_pop : Buffer → Attempt Buffer (Option BufferElement)
buffer_pop buffer =
    if leb buffer.count 0 && not buffer.done
    then waits empty
    else if leb buffer.count 0 && buffer.done
    then returns none no_wake buffer
    else returns (some (get_or buffer.items buffer.out_index no_element)) (signal full)
        (record buffer {
          out_index = (buffer.out_index + 1) % buffer.capacity;
          count = buffer.count - 1;
        })

unfoldable pub buffer_set_done : Buffer → Attempt Buffer (Unit {0})
buffer_set_done buffer = returns tt (broadcast empty) (record buffer { done = true })

-- Read without the mutex.
unfoldable pub buffer_is_done : Buffer → Bool
buffer_is_done buffer = buffer.done
