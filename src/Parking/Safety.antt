-- ===== src/Parking/Safety.antt =====
-- What holds in every reachable state of the parking lot.
use gtu_cse344_system_progra.Base.{ℕ, ◌+◌, ◌-◌, ◌≤◌, ◌<◌, ◌≡◌, refl, ◌∙◌, Bool, true, false, arith}
use gtu_cse344_system_progra.Parking.Lot.{
  Lane, max_auto_amount, max_pickup_amount, OwnerPc, ending, posting_auto, posting_pickup, ValetPc,
  called, charged, parking, moving, Lot, init, arrive, post_new, ValetMove, wait_new, wait_charge,
  stop, take, parked, move, OwnerMove, go_on, give_up, auto_arrives, pickup_arrives, not_full,
  is_full, set_end, post_auto, post_pickup, Step, owner_turn, auto_turn, pickup_turn, signal,
  signal_posts, Reach, start, next,
}

-- Whether the attendant has a car, and whether it has taken an arrival from the semaphore and not
-- the car yet.
abbrev pub busy : ValetPc → ℕ
busy parking = 1
busy moving = 1
busy _ = 0

abbrev pub token : ValetPc → ℕ
token called = 1
token charged = 1
token _ = 0

-- Each car in the temporary places has a real place left for it. Until the end is set, it is also
-- known to the semaphore or to the attendant.
pub record LaneInv (most : ℕ) (e : Bool) (l : Lane) (v : ValetPc) : Type 0 where
  pub temp_in : l.free_temp + busy v ≤ most
  pub free_in : l.free ≤ most
  pub reserved : most ≤ l.free + l.free_temp
  pub known : e ≡ false → l.new_car + token v + busy v + l.free_temp ≡ most

ValetMove-LaneInv :
    {most : ℕ} {e : Bool} {l l' : Lane} {p p' : ValetPc}
    → ValetMove e l p l' p'
    → LaneInv most e l p
    → LaneInv most e l' p'
ValetMove-LaneInv (wait_new h) v = ground arith
ValetMove-LaneInv (wait_charge h) v = ground arith
ValetMove-LaneInv (stop h) v = ground arith
ValetMove-LaneInv (take h) v = ground arith
ValetMove-LaneInv parked v = ground arith
ValetMove-LaneInv move v = ground arith

arrive-LaneInv :
    {most : ℕ} {e : Bool} {l : Lane} {p : ValetPc}
    → LaneInv most e l p
    → LaneInv most e (arrive most l) p
unfolding arrive
arrive-LaneInv v = ground arith

end-LaneInv :
    {most : ℕ} {e : Bool} {l : Lane} {p : ValetPc} → LaneInv most e l p → LaneInv most true l p
end-LaneInv v = ground arith

post_new-LaneInv :
    {most : ℕ} {l : Lane} {p : ValetPc} → LaneInv most true l p → LaneInv most true (post_new l) p
post_new-LaneInv v = ground arith

abbrev posts_next : OwnerPc → Bool
posts_next posting_auto = true
posts_next posting_pickup = true
posts_next _ = false

abbrev closing : OwnerPc → Bool
closing ending = true
closing posting_auto = true
closing posting_pickup = true
closing _ = false

abbrev pub IsFull : Lot → Type 0
IsFull s = (s.auto.free ≡ 0) × (s.pickup.free ≡ 0)

-- Nothing posts before the end is set, and without a signal the end is set for a full lot only.
pub record Inv (s : Lot) : Type 0 where
  pub auto_ok : LaneInv max_auto_amount s.simulation_end s.auto s.auto_valet
  pub pickup_ok : LaneInv max_pickup_amount s.simulation_end s.pickup s.pickup_valet
  pub owner_posts : posts_next s.owner ≡ true → s.simulation_end ≡ true
  pub handler_posts : 0 < s.posts → s.simulation_end ≡ true
  pub full_closing : s.signalled ≡ false → closing s.owner ≡ true → IsFull s
  pub full_end : s.signalled ≡ false → s.simulation_end ≡ true → IsFull s

init-Inv : Inv init
init-Inv = record {
  auto_ok = ground arith;
  pickup_ok = ground arith;
  owner_posts = λ h. cc;
  handler_posts = λ h. absurd (omega arith);
  full_closing = λ h k. cc;
  full_end = λ h k. cc;
}

free-arrive : (most : ℕ) (l : Lane) → (arrive most l).free ≡ l.free
unfolding arrive
free-arrive most l = ground arith

ValetMove-free :
    {e : Bool} {l l' : Lane} {p p' : ValetPc} → ValetMove e l p l' p' → l.free ≡ 0 → l'.free ≡ 0
ValetMove-free (wait_new h) z = z
ValetMove-free (wait_charge h) z = z
ValetMove-free (stop h) z = z
ValetMove-free (take h) z = z
ValetMove-free parked z = z
ValetMove-free move z = omega arith

OwnerMove-Inv : {s t : Lot} {p : OwnerPc} → OwnerMove s t p → Inv s → Inv (record t { owner = p })
OwnerMove-Inv (go_on e h) v = ground arith
OwnerMove-Inv (give_up e h) v = ground arith
OwnerMove-Inv {s} (auto_arrives e) v = record {
  auto_ok = arrive-LaneInv v.auto_ok;
  pickup_ok = v.pickup_ok;
  owner_posts = λ h. cc;
  handler_posts = v.handler_posts;
  full_closing = λ h k. cc;
  full_end = λ h k. (free-arrive max_auto_amount s.auto ∙ (v.full_end h k).0, (v.full_end h k).1);
}
OwnerMove-Inv {s} (pickup_arrives e) v = record {
  pickup_ok = arrive-LaneInv v.pickup_ok;
  auto_ok = v.auto_ok;
  owner_posts = λ h. cc;
  handler_posts = v.handler_posts;
  full_closing = λ h k. cc;
  full_end =
      λ h k. ((v.full_end h k).0, free-arrive max_pickup_amount s.pickup ∙ (v.full_end h k).1);
}
OwnerMove-Inv (not_full e h) v = ground arith
OwnerMove-Inv (is_full e h k) v = ground arith
OwnerMove-Inv (set_end e) v = ground arith
OwnerMove-Inv (post_auto e) v = ground arith
OwnerMove-Inv (post_pickup e) v = ground arith

Step-Inv : {s t : Lot} → Step s t → Inv s → Inv t
Step-Inv (owner_turn mv) v = OwnerMove-Inv mv v
Step-Inv (auto_turn mv) v = record {
  auto_ok = ValetMove-LaneInv mv v.auto_ok;
  pickup_ok = v.pickup_ok;
  owner_posts = v.owner_posts;
  handler_posts = v.handler_posts;
  full_closing = λ h k. (ValetMove-free mv (v.full_closing h k).0, (v.full_closing h k).1);
  full_end = λ h k. (ValetMove-free mv (v.full_end h k).0, (v.full_end h k).1);
}
Step-Inv (pickup_turn mv) v = record {
  auto_ok = v.auto_ok;
  pickup_ok = ValetMove-LaneInv mv v.pickup_ok;
  owner_posts = v.owner_posts;
  handler_posts = v.handler_posts;
  full_closing = λ h k. ((v.full_closing h k).0, ValetMove-free mv (v.full_closing h k).1);
  full_end = λ h k. ((v.full_end h k).0, ValetMove-free mv (v.full_end h k).1);
}
Step-Inv signal v = record {
  auto_ok = end-LaneInv v.auto_ok;
  pickup_ok = end-LaneInv v.pickup_ok;
  owner_posts = λ h. refl;
  handler_posts = λ h. refl;
  full_closing = λ h k. cc;
  full_end = λ h k. cc;
}
Step-Inv (signal_posts pos) v = ground (arith, v.handler_posts)

pub Reach-Inv : {s : Lot} → Reach s → Inv s
Reach-Inv start = init-Inv
Reach-Inv (next r st) = Step-Inv st (Reach-Inv r)

-- In every reachable state, signals or not, the free places of each kind are within their bounds,
-- and each car that waits in a temporary place has a real place left for it.
pub places_bounded :
    {s : Lot}
    → Reach s
    → (s.auto.free_temp ≤ max_auto_amount)
      × (s.auto.free ≤ max_auto_amount)
      × (max_auto_amount - s.auto.free_temp ≤ s.auto.free)
      × (s.pickup.free_temp ≤ max_pickup_amount)
      × (s.pickup.free ≤ max_pickup_amount)
      × (max_pickup_amount - s.pickup.free_temp ≤ s.pickup.free)
places_bounded r = let v = Reach-Inv r in omega (arith, v.auto_ok, v.pickup_ok)

-- In every reachable state, an attendant that is about to move a car finds a real place for it, and
-- the temporary place that it frees was taken: neither counter leaves its range.
pub move_in_range :
    {s : Lot}
    → Reach s
    → (s.auto_valet ≡ moving → (0 < s.auto.free) × (s.auto.free_temp < max_auto_amount))
      × (s.pickup_valet ≡ moving → (0 < s.pickup.free) × (s.pickup.free_temp < max_pickup_amount))
move_in_range r = let v = Reach-Inv r in ground (arith, v.auto_ok, v.pickup_ok)

-- In every reachable state where no signal has come, the simulation has ended only if every real
-- place is taken and no car waits in a temporary one.
pub ends-IsFull :
    {s : Lot}
    → Reach s
    → s.signalled ≡ false
    → s.simulation_end ≡ true
    → IsFull s × (s.auto.free_temp ≡ max_auto_amount) × (s.pickup.free_temp ≡ max_pickup_amount)
ends-IsFull r h k = let v = Reach-Inv r in ground (arith, v.auto_ok, v.pickup_ok, v.full_end h k)
