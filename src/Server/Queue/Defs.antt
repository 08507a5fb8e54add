-- ===== src/Server/Queue/Defs.antt =====
-- The types and the functions of Midterm/src/structs.c. `malloc` is an argument: whether it
-- returns memory. A pointer in the array is NULL, the copy of a client, or what `malloc` left there.
use gtu_cse344_system_progra.Base.{
  ℕ, zero, suc, ◌+◌, ◌-◌, ◌*◌, ◌%◌, Bool, true, false, Option, some, none, List, [], ◌∷◌, ◌==◌,
  get_or, set, replicate, if◌then◌else◌,
}

pub record Client : Type 0 where
  pub pid : ℕ
  pub try_connect : ℕ

pub data Slot : Type 0 where
  null uninit : Slot
  live : Client → Slot

pub record Queue : Type 0 where
  pub front : ℕ
  pub rear : ℕ
  pub capacity : ℕ
  pub size : ℕ
  pub elements : List Slot

-- The return values 0 and -1.
pub data Code : Type 0 where
  success failure : Code

-- Whether the two calls of `malloc` that an `enqueue` may make return memory.
pub record Malloc : Type 0 where
  pub array : Bool
  pub client : Bool

unfoldable pub dequeue : Queue → Slot × Queue
dequeue q = if q.size == 0 then (null, q) else (
  get_or q.elements q.front uninit,
  record q {
    elements = set q.elements q.front null;
    front = if q.front == q.capacity - 1 then 0 else q.front + 1;
    size = q.size - 1;
  },
)

-- The copying loop of `resize_queue` from index `i`, with `n` rounds left.
unfoldable pub copy_elements : Queue → ℕ → ℕ → List Slot → List Slot
copy_elements q i zero new = new
copy_elements q i (suc n) new =
    copy_elements q (i + 1) n (set new i (get_or q.elements ((q.front + i) % q.capacity) uninit))

abbrev pub new_capacity : Queue → ℕ
new_capacity q = if q.capacity == 0 then 1 else 2 * q.capacity

unfoldable pub resize_queue : Bool → Queue → Code × Queue
unfolding copy_elements
resize_queue false q = (failure, q)
resize_queue true q = (
  success,
  record q {
    elements = copy_elements q 0 q.size (replicate (new_capacity q) uninit);
    capacity = new_capacity q;
    front = 0;
    rear = q.size;
  },
)

-- The part of `enqueue` below the resize.
unfoldable pub place : Bool → Queue → Client → Code × Queue
place false q item = (failure, record q { elements = set q.elements q.rear null })
place true q item = (
  success,
  record q {
    elements = set q.elements q.rear (live item);
    rear = if q.rear == q.capacity - 1 then 0 else q.rear + 1;
    size = q.size + 1;
  },
)

-- `size == capacity && resize_queue(que) == -1`
unfoldable pub make_room : Malloc → Queue → Code × Queue
unfolding resize_queue
make_room m q = if q.size == q.capacity then resize_queue m.array q else (success, q)

unfoldable pub enqueue_with : Malloc → Client → Code × Queue → Code × Queue
unfolding place
enqueue_with m item (failure, q) = (failure, q)
enqueue_with m item (success, q) = place m.client q item

unfoldable pub enqueue : Malloc → Queue → Client → Code × Queue
unfolding make_room enqueue_with
enqueue m q item = enqueue_with m item (make_room m q)

unfoldable pub queue_constructor : Queue
queue_constructor = record { front = 0; rear = 0; capacity = 0; size = 0; elements = [] }

-- The pointers that the loop of `queue_destructor` frees; `none` when it frees one that was never
-- written.
unfoldable pub free_elements : List Slot → Option (List Client)
free_elements [] = some []
free_elements (null ∷ xs) = free_elements xs
free_elements (uninit ∷ xs) = none
free_elements (live c ∷ xs) = elim (free_elements xs) [ none ↦ none | some cs ↦ some (c ∷ cs) ]

unfoldable pub queue_destructor : Queue → Option (List Client)
unfolding free_elements
queue_destructor q = free_elements q.elements
