-- ===== src/Parking/FullTests.antt =====
-- A run of the parking lot in which the automobiles come first and the pickups then, until it is full.
use gtu_cse344_system_progra.Base.{
  ℕ, zero, suc, ◌-◌, ◌<◌, ◌≡◌, ◌≢◌, ◌⊎◌, inr, refl, subst, true, arith,
}
use gtu_cse344_system_progra.Parking.Lot.{
  Lot, Lane, OwnerPc, max_auto_amount, max_pickup_amount, init, arrive, at_head, checking,
  posting_auto, go_on, auto_arrives, pickup_arrives, not_full, is_full, set_end, wait_new,
  wait_charge, take, parked, move, owner_turn, auto_turn, pickup_turn, Reach, start, next,
}
use gtu_cse344_system_progra.Parking.Safety.{IsFull, ends-IsFull}

abbrev lane : ℕ → ℕ → Lane
lane most n = record { free_temp = most; free = n; new_car = 0; in_charge = 1 }

-- No car waits, `a` and `p` places are left.
abbrev lot : OwnerPc → ℕ → ℕ → Lot
lot o a p = record init {
  auto = lane max_auto_amount a;
  pickup = lane max_pickup_amount p;
  owner = o;
}

arrive-lane :
    (most n : ℕ)
    → 0 < most
    → arrive most (lane most (suc n))
      ≡ record { free_temp = most - 1; free = suc n; new_car = 1; in_charge = 1 }
unfolding arrive
arrive-lane most n pos = ground arith

auto_parks : (a p : ℕ) → Reach (lot at_head (suc a) p) → Reach (lot checking a p)
auto_parks a p r =
    subst (λ n. Reach (lot checking n p)) less
      (next
        (next
          (next
            (next (next came (auto_turn (wait_new (omega arith))))
              (auto_turn (wait_charge (omega arith))))
            (auto_turn (take refl)))
          (auto_turn parked))
        (auto_turn move))
  where
    less : suc a - 1 ≡ a
    less = omega arith

    came : Reach (record (lot checking (suc a) p) {
      auto = record { free_temp = 7; free = suc a; new_car = 1; in_charge = 1 };
    })
    came =
        subst (λ l. Reach (record (lot checking (suc a) p) { auto = l }))
          (arrive-lane max_auto_amount a (omega arith))
          (next (next r (owner_turn (go_on refl refl))) (owner_turn (auto_arrives refl)))

pickup_parks : (a p : ℕ) → Reach (lot at_head a (suc p)) → Reach (lot checking a p)
pickup_parks a p r =
    subst (λ n. Reach (lot checking a n)) less
      (next
        (next
          (next
            (next (next came (pickup_turn (wait_new (omega arith))))
              (pickup_turn (wait_charge (omega arith))))
            (pickup_turn (take refl)))
          (pickup_turn parked))
        (pickup_turn move))
  where
    less : suc p - 1 ≡ p
    less = omega arith

    came : Reach (record (lot checking a (suc p)) {
      pickup = record { free_temp = 3; free = suc p; new_car = 1; in_charge = 1 };
    })
    came =
        subst (λ l. Reach (record (lot checking a (suc p)) { pickup = l }))
          (arrive-lane max_pickup_amount p (omega arith))
          (next (next r (owner_turn (go_on refl refl))) (owner_turn (pickup_arrives refl)))

goes_on : (a p : ℕ) → (a ≢ 0) ⊎ (p ≢ 0) → Reach (lot checking a p) → Reach (lot at_head a p)
goes_on a p h r = next r (owner_turn (not_full refl h))

autos_park : (a : ℕ) → Reach (lot at_head a 4) → Reach (lot at_head 0 4)
autos_park zero r = r
autos_park (suc a) r = autos_park a (goes_on a 4 (inr (omega arith)) (auto_parks a 4 r))

pickups_park : (p : ℕ) → Reach (lot at_head 0 (suc p)) → Reach (lot checking 0 0)
pickups_park zero r = pickup_parks 0 0 r
pickups_park (suc p) r =
    pickups_park p (goes_on 0 (suc p) (inr (omega arith)) (pickup_parks 0 (suc p) r))

abbrev full_lot : Lot
full_lot = record (lot posting_auto 0 0) { simulation_end = true }

full_lot-Reach : Reach full_lot
full_lot-Reach =
    next (next (pickups_park 3 (autos_park 8 start)) (owner_turn (is_full refl refl refl)))
      (owner_turn (set_end refl))

ends-IsFull_example : IsFull full_lot × (8 ≡ max_auto_amount) × (4 ≡ max_pickup_amount)
ends-IsFull_example = ends-IsFull full_lot-Reach refl refl
