-- ===== src/Server/Queue/Order.antt =====
-- `enqueue` and `dequeue` of Midterm/src/structs.c against the list of clients that the queue holds.
use gtu_cse344_system_progra.Base.{◌&&◌}
use gtu_cse344_system_progra.Base.{◌||◌}
use gtu_cse344_system_progra.Base.{not}
use gtu_cse344_system_progra.Base.{if◌then◌else◌}
use mathlib.Core.List.{map-append}
use native.Mathlib.Numerals.{add-one}
use gtu_cse344_system_progra.Base.{
  ℕ, ◌+◌, ◌-◌, ◌≤◌, ◌<◌, ◌≡◌, ◌≢◌, refl, ap, sym, ◌∙◌, Bool, true, false, inl, inr, ◌==◌,
  Bool-cases, List, [], ◌∷◌, ◌++◌, length-set, get_or, set, map, arith,
}
use gtu_cse344_system_progra.Base.Ring.{wrap, slots, slots-set_next, slots-set_fresh, slots_of_pos}
use gtu_cse344_system_progra.Server.Queue.Defs.{
  Client, null, uninit, live, Queue, Code, success, failure, Malloc, dequeue, resize_queue, place,
  make_room, enqueue_with, enqueue,
}
use gtu_cse344_system_progra.Server.Queue.Fifo.{Holds, slots_of, size-Holds, resize_queue-Holds}

-- The clients after an `enqueue` that returned the given code.
abbrev pub after : Code → List Client → Client → List Client
after success cs item = cs ++ (item ∷ [])
after failure cs item = cs

rear_fresh :
    {q : Queue} {cs : List Client}
    → Holds q cs
    → q.size < q.capacity
    → (k : ℕ) → k < q.size
    → wrap q.capacity (q.front + k) ≢ q.rear
rear_fresh {q} h room k lt e = ground arith

place-Holds :
    (granted : Bool) {q : Queue} {cs : List Client} (item : Client)
    → Holds q cs
    → q.size < q.capacity
    → let (code, q') = place granted q item in Holds q' (after code cs item)
unfolding place
place-Holds true {q} {cs} item h room = record {
  whole = length-set q.elements q.rear (live item) ∙ h.whole;
  front_in = h.front_in;
  size_in = omega arith;
  next = ground (arith, h.next, h.front_in);
  stored = stored;
}
  where
    stored :
        slots uninit q.capacity (set q.elements q.rear (live item)) q.front (q.size + 1)
        ≡ map live (cs ++ (item ∷ []))
    stored =
        ap (slots uninit q.capacity (set q.elements q.rear (live item)) q.front) (add-one q.size)
        ∙ slots-set_next uninit q.capacity q.elements (live item) q.front q.size q.rear
            (omega arith) room (omega arith) h.next
        ∙ ap (λ l. l ++ (live item ∷ [])) h.stored
        ∙ sym (map-append live cs (item ∷ []))
place-Holds false {q} {cs} item h room = record {
  whole = length-set q.elements q.rear null ∙ h.whole;
  front_in = h.front_in;
  size_in = h.size_in;
  next = h.next;
  stored =
      slots-set_fresh uninit q.capacity q.elements null q.front q.size q.rear (omega arith)
        (rear_fresh h room) h.size_in
      ∙ h.stored;
}

-- What `enqueue` needs of the queue before it places a client.
record IsMade (cs : List Client) (r : Code × Queue) : Type 0 where
  kept : Holds r.1 cs
  room : r.0 ≡ success → r.1.size < r.1.capacity

resize_queue-IsMade :
    (granted : Bool) {q : Queue} {cs : List Client}
    → Holds q cs
    → q.size ≡ q.capacity
    → IsMade cs (resize_queue granted q)
unfolding resize_queue
resize_queue-IsMade true h e = record {
  kept = (resize_queue-Holds h).0;
  room = λ _. omega (arith, (resize_queue-Holds h).1);
}
resize_queue-IsMade false h e = record { kept = h; room = λ f. cc }

make_room-IsMade :
    (m : Malloc) {q : Queue} {cs : List Client} → Holds q cs → IsMade cs (make_room m q)
unfolding make_room
make_room-IsMade m {q} h = elim (Bool-cases (q.size == q.capacity)) [
  | inl e ↦ rw e (resize_queue-IsMade m.array h (ground arith))
  | inr n ↦ rw n (record { kept = h; room = λ _. ground (arith, h.size_in) })
]

enqueue_with-Holds :
    (m : Malloc) {cs : List Client} (item : Client) (r : Code × Queue)
    → IsMade cs r
    → let (code, q') = enqueue_with m item r in Holds q' (after code cs item)
unfolding enqueue_with
enqueue_with-Holds m item (success, q) made = place-Holds m.client item made.kept (made.room refl)
enqueue_with-Holds m item (failure, q) made = made.kept

pub enqueue_kept :
    (m : Malloc) {q : Queue} {cs : List Client} (item : Client)
    → Holds q cs
    → let (code, q') = enqueue m q item in Holds q' (after code cs item)
unfolding enqueue
enqueue_kept m {q} item h = enqueue_with-Holds m item (make_room m q) (make_room-IsMade m h)

enqueue_code :
    (m : Malloc) (q : Queue) (item : Client)
    → (enqueue m q item).0
      ≡ (if (not (q.size == q.capacity) || m.array) && m.client then success else failure)
unfolding enqueue enqueue_with make_room resize_queue place
enqueue_code m q item = ground arith

-- On a well-formed queue, `enqueue` returns 0 exactly where the allocation of the client succeeds and,
-- if the array is full, that of a new array, and -1 else. When it returns 0 it has put a copy of the
-- client last; when it returns -1, the queue holds the same clients as before. It is well formed
-- again.
pub enqueue-Holds :
    (m : Malloc) {q : Queue} {cs : List Client} (item : Client)
    → Holds q cs
    → let (code, q') = enqueue m q item in
      (code ≡ (if (not (q.size == q.capacity) || m.array) && m.client then success else failure))
      × Holds q' (after code cs item)
enqueue-Holds m {q} item h = (enqueue_code m q item, enqueue_kept m item h)

-- `dequeue` hands out NULL for an empty queue.
pub dequeue-Holds_nil : {q : Queue} → Holds q [] → dequeue q ≡ (null, q)
unfolding dequeue
dequeue-Holds_nil {q} h = ground (arith, size-Holds h)

taken : Queue → Queue
taken q = record q {
  elements = set q.elements q.front null;
  front = wrap q.capacity (q.front + 1);
  size = q.size - 1;
}

dequeue_of_pos :
    (q : Queue)
    → 0 < q.size
    → q.size ≤ q.capacity
    → q.front ≤ q.capacity - 1
    → dequeue q ≡ (get_or q.elements q.front uninit, taken q)
unfolding dequeue taken
dequeue_of_pos q pos small lt = ground arith

taken-slots :
    {q : Queue} {cs : List Client}
    → Holds q cs
    → 0 < q.size
    → slots_of (taken q)
      ≡ slots uninit q.capacity q.elements (wrap q.capacity (q.front + 1)) (q.size - 1)
unfolding taken
taken-slots {q} h pos =
    slots-set_fresh uninit q.capacity q.elements null (wrap q.capacity (q.front + 1)) (q.size - 1)
      q.front (ground (arith, h.size_in, h.front_in))
      (λ k lt e. ground (arith, h.size_in, h.front_in)) (omega arith)

-- On a well-formed queue that holds a client, `dequeue` hands out the one that has waited longest,
-- and the queue holds the others and is well formed again.
pub dequeue-Holds :
    {q : Queue} {c : Client} {cs : List Client}
    → Holds q (c ∷ cs)
    → ((dequeue q).0 ≡ live c) × Holds (dequeue q).1 cs
unfolding taken
dequeue-Holds {q} {c} {cs} h = rw (dequeue_of_pos q pos h.size_in h.front_in) (
  cc (split),
  record {
    whole = length-set q.elements q.front null ∙ h.whole;
    front_in = ground (arith, h.size_in, h.front_in);
    size_in = omega arith;
    next = ground (arith, h.size_in, h.front_in, h.next);
    stored = taken-slots h pos ∙ cc (split);
  },
)
  where
    pos : 0 < q.size
    pos = omega (arith, size-Holds h)

    split :
        get_or q.elements q.front uninit
          ∷ slots uninit q.capacity q.elements (wrap q.capacity (q.front + 1)) (q.size - 1)
        ≡ live c ∷ map live cs
    split = sym (slots_of_pos uninit q.capacity q.elements q.front q.size pos) ∙ h.stored
