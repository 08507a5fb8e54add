-- ===== src/Server/Queue/Fifo.antt =====
-- The queue of clients holds a list of clients, oldest first: what each function does to it.
use gtu_cse344_system_progra.Base.{
  ℕ, zero, suc, ◌+◌, ◌-◌, ◌%◌, ◌≤◌, ◌<◌, ◌≡◌, refl, ap, sym, ◌∙◌, true, dec_lt, List, [], length,
  length-set, length-replicate, length-map, get_or, set, replicate, map, arith,
}
use gtu_cse344_system_progra.Base.Ring.{
  wrap, mod-eq-wrap, slots, slots_ext, length-slots, get_or-set_other, get_or-set_at,
}
use gtu_cse344_system_progra.Server.Queue.Defs.{
  Client, Slot, uninit, live, Queue, copy_elements, new_capacity, resize_queue, queue_constructor,
}

abbrev pub slots_of : Queue → List Slot
slots_of q = slots uninit q.capacity q.elements q.front q.size

-- The queue is well formed and holds the clients `cs`. `front` is an index of the array, or 0 while
-- there is none.
pub record Holds (q : Queue) (cs : List Client) : Type 0 where
  pub whole : length q.elements ≡ q.capacity
  pub front_in : q.front ≤ q.capacity - 1
  pub size_in : q.size ≤ q.capacity
  pub next : q.rear ≡ wrap q.capacity (q.front + q.size)
  pub stored : slots_of q ≡ map live cs

pub queue_constructor-Holds : Holds queue_constructor []
unfolding queue_constructor
queue_constructor-Holds = record {
  whole = refl;
  front_in = omega arith;
  size_in = omega arith;
  next = refl;
  stored = refl;
}

pub size-Holds : {q : Queue} {cs : List Client} → Holds q cs → q.size ≡ length cs
size-Holds {q} {cs} h =
    sym (length-slots uninit q.capacity q.elements q.front q.size)
    ∙ ap length h.stored
    ∙ length-map cs live

pub length-copy_elements :
    (q : Queue) (i n : ℕ) (new : List Slot) → length (copy_elements q i n new) ≡ length new
unfolding copy_elements
length-copy_elements q i zero new = refl
length-copy_elements q i (suc n) new =
    length-copy_elements q (i + 1) n
      (set new i (get_or q.elements ((q.front + i) % q.capacity) uninit))
    ∙ length-set new i (get_or q.elements ((q.front + i) % q.capacity) uninit)

-- The loop leaves the indices below its start alone.
get_or-copy_elements_below :
    (q : Queue) (i n k : ℕ) (new : List Slot)
    → k < i
    → get_or (copy_elements q i n new) k uninit ≡ get_or new k uninit
unfolding copy_elements
get_or-copy_elements_below q i zero k new lt = refl
get_or-copy_elements_below q i (suc n) k new lt =
    get_or-copy_elements_below q (i + 1) n k (set new i v) (omega arith)
    ∙ get_or-set_other new v i k uninit (omega arith)
  where
    v : Slot
    v = get_or q.elements ((q.front + i) % q.capacity) uninit

get_or-copy_elements :
    (q : Queue) (i n k : ℕ) (new : List Slot)
    → i ≤ k
    → k < i + n
    → i + n ≤ length new
    → get_or (copy_elements q i n new) k uninit
      ≡ get_or q.elements ((q.front + k) % q.capacity) uninit
unfolding copy_elements
get_or-copy_elements q i zero k new from to fits = absurd (omega arith)
get_or-copy_elements q i (suc n) k new from to fits = elim (dec_lt i k) [
  | yes later ↦
      get_or-copy_elements q (i + 1) n k (set new i v) (omega arith) (omega arith)
        (omega (arith, length-set new i v))
  | no here ↦
      get_or-copy_elements_below q (i + 1) n k (set new i v) (omega arith)
      ∙ get_or-set_at new v i k uninit (omega arith) (omega arith)
      ∙ ap (λ j. get_or q.elements ((q.front + j) % q.capacity) uninit) (omega arith)
]
  where
    v : Slot
    v = get_or q.elements ((q.front + i) % q.capacity) uninit

-- On a well-formed queue, a resize whose memory can be had makes the array longer and keeps the
-- clients in their order.
pub resize_queue-Holds :
    {q : Queue} {cs : List Client}
    → Holds q cs
    → Holds (resize_queue true q).1 cs × (q.capacity < (resize_queue true q).1.capacity)
unfolding resize_queue
resize_queue-Holds {q} {cs} h = (
  record {
    whole = length-copy_elements q 0 q.size fresh ∙ length-replicate (new_capacity q) uninit;
    front_in = omega arith;
    size_in = ground (arith, h.size_in);
    next = ground (arith, h.size_in);
    stored =
        slots_ext uninit (new_capacity q) q.capacity (copy_elements q 0 q.size fresh) q.elements 0
          q.front q.size same (λ _. ground arith) (λ pos. omega arith) (ground (arith, h.size_in))
          h.size_in
        ∙ h.stored;
  },
  ground arith,
)
  where
    fresh : List Slot
    fresh = replicate (new_capacity q) uninit

    room : 0 + q.size ≤ length fresh
    room = ground (arith, length-replicate (new_capacity q) uninit)

    same :
        (k : ℕ)
        → k < q.size
        → get_or (copy_elements q 0 q.size fresh) (wrap (new_capacity q) (0 + k)) uninit
          ≡ get_or q.elements (wrap q.capacity (q.front + k)) uninit
    same k lt =
        ap (λ j. get_or (copy_elements q 0 q.size fresh) j uninit) (ground arith)
        ∙ get_or-copy_elements q 0 q.size k fresh (omega arith) (omega arith) room
        ∙ ap (λ j. get_or q.elements j uninit)
            (mod-eq-wrap q.capacity (q.front + k) (omega arith) (omega arith))
