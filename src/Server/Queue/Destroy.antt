-- ===== src/Server/Queue/Destroy.antt =====
-- `queue_destructor` of Midterm/src/structs.c on a queue that has grown.
use gtu_cse344_system_progra.Base.{
  ◌-◌, ◌==◌, if◌then◌else◌, ℕ, zero, suc, ◌+◌, ◌%◌, ◌≤◌, ◌<◌, ◌≡◌, refl, ap, ◌∙◌, true, none, List,
  [], ◌∷◌, length, length-set, length-replicate, get_or, set, replicate, arith,
}
use gtu_cse344_system_progra.Base.Ring.{get_or-set_other}
use gtu_cse344_system_progra.Server.Queue.Defs.{
  Client, Slot, null, uninit, live, Queue, Malloc, copy_elements, new_capacity, resize_queue, place,
  make_room, enqueue_with, enqueue, free_elements, queue_destructor,
}
use gtu_cse344_system_progra.Server.Queue.Fifo.{Holds, length-copy_elements}

free_elements_uninit :
    (xs : List Slot) (k : ℕ) → k < length xs → get_or xs k null ≡ uninit → free_elements xs ≡ none
unfolding free_elements
free_elements_uninit [] k lt h = absurd (omega arith)
free_elements_uninit (uninit ∷ xs) k lt h = refl
free_elements_uninit (null ∷ xs) zero lt h = cc
free_elements_uninit (null ∷ xs) (suc k) lt h = free_elements_uninit xs k (omega arith) h
free_elements_uninit (live c ∷ xs) zero lt h = cc
free_elements_uninit (live c ∷ xs) (suc k) lt h = rw (free_elements_uninit xs k (omega arith) h)

get_or-replicate : {A : Type 0} (n k : ℕ) (a d : A) → k < n → get_or (replicate n a) k d ≡ a
get_or-replicate zero k a d lt = absurd (omega arith)
get_or-replicate (suc n) zero a d lt = refl
get_or-replicate (suc n) (suc k) a d lt = get_or-replicate n k a d (omega arith)

-- The loop of `resize_queue` leaves the indices behind its end alone.
get_or-copy_elements_above :
    (q : Queue) (i n k : ℕ) (new : List Slot)
    → i + n ≤ k
    → get_or (copy_elements q i n new) k null ≡ get_or new k null
unfolding copy_elements
get_or-copy_elements_above q i zero k new le = refl
get_or-copy_elements_above q i (suc n) k new le =
    get_or-copy_elements_above q (i + 1) n k (set new i v) (omega arith)
    ∙ get_or-set_other new v i k null (omega arith)
  where
    v : Slot
    v = get_or q.elements ((q.front + i) % q.capacity) uninit

-- A well-formed queue of two or more clients that is full, and takes one more where both
-- allocations succeed, keeps a pointer that was never written in its new array: `queue_destructor`
-- then frees it.
pub queue_destructor_unwritten :
    (m : Malloc) (item : Client) {q : Queue} {cs : List Client}
    → Holds q cs
    → q.size ≡ q.capacity
    → 2 ≤ q.size
    → m.array ≡ true
    → m.client ≡ true
    → queue_destructor (enqueue m q item).1 ≡ none
unfolding queue_destructor enqueue enqueue_with make_room resize_queue place
queue_destructor_unwritten m item {q} h full two array client =
    ap (λ (r : Queue). free_elements r.elements) grown
    ∙ free_elements_uninit (set copied q.size (live item)) (q.size + 1)
        (omega (
          arith,
          length-set copied q.size (live item),
          length-copy_elements q 0 q.size fresh,
          length-replicate (new_capacity q) uninit,
          wide,
        ))
        (get_or-set_other copied (live item) q.size (q.size + 1) null (omega arith)
          ∙ get_or-copy_elements_above q 0 q.size (q.size + 1) fresh (omega arith)
          ∙ get_or-replicate (new_capacity q) (q.size + 1) uninit null (omega (arith, wide)))
  where
    fresh : List Slot
    fresh = replicate (new_capacity q) uninit

    copied : List Slot
    copied = copy_elements q 0 q.size fresh

    wide : q.size + 1 < new_capacity q
    wide = ground arith

    grown : (enqueue m q item).1 ≡ record q {
      elements = set copied q.size (live item);
      capacity = new_capacity q;
      front = 0;
      rear = if q.size == new_capacity q - 1 then 0 else q.size + 1;
      size = q.size + 1;
    }
    grown = ground arith
