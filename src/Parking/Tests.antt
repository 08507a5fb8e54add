-- ===== src/Parking/Tests.antt =====
-- A car in the hands of the attendant for the automobiles.
use gtu_cse344_system_progra.Base.{◌-◌, ◌≤◌, refl, arith}
use gtu_cse344_system_progra.Parking.Lot.{
  Lot, max_auto_amount, max_pickup_amount, init, arrive, moving, checking, go_on, auto_arrives,
  wait_new, wait_charge, take, parked, owner_turn, auto_turn, Reach, start, next,
}
use gtu_cse344_system_progra.Parking.Safety.{places_bounded}

abbrev car_moves : Lot
car_moves = record init {
  auto = record { free_temp = 7; free = 8; new_car = 0; in_charge = 1 };
  owner = checking;
  auto_valet = moving;
}

car_moves-Reach : Reach car_moves
unfolding arrive
car_moves-Reach =
    next
      (next
        (next
          (next (next (next start (owner_turn (go_on refl refl))) (owner_turn (auto_arrives refl)))
            (auto_turn (wait_new (omega arith))))
          (auto_turn (wait_charge (omega arith))))
        (auto_turn (take refl)))
      (auto_turn parked)

places_bounded_example :
    (7 ≤ max_auto_amount)
    × (8 ≤ max_auto_amount)
    × (max_auto_amount - 7 ≤ 8)
    × (4 ≤ max_pickup_amount)
    × (4 ≤ max_pickup_amount)
    × (max_pickup_amount - 4 ≤ 4)
places_bounded_example = places_bounded car_moves-Reach
