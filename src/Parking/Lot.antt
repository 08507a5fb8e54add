-- ===== src/Parking/Lot.antt =====
-- The shared state of HW3/src/main.c and the steps of its threads. What stands between a lock and
-- an unlock of `parkingLotMutex` is one step; so is each call on a semaphore.
use gtu_cse344_system_progra.Base.{
  ℕ, ◌+◌, ◌-◌, ◌<◌, ◌≡◌, Bool, true, false, ◌&&◌, ltb, if◌then◌else◌, ◌⊎◌, ◌≢◌,
}

-- What the program keeps for the automobiles, and once more for the pickups: the free places, the
-- semaphore of the arrivals and that of the attendant. The subtractions stop at 0: see
-- `move_in_range` of Parking/Safety.antt.
pub record Lane : Type 0 where
  pub free_temp : ℕ
  pub free : ℕ
  pub new_car : ℕ
  pub in_charge : ℕ

-- MAX_AUTO_AMOUNT and MAX_PICKUP_AMOUNT
abbrev pub max_auto_amount : ℕ
max_auto_amount = 8

abbrev pub max_pickup_amount : ℕ
max_pickup_amount = 4

pub data OwnerPc : Type 0 where
  at_head : OwnerPc  -- the test of the loop
  arriving : OwnerPc  -- behind `sleep`
  checking : OwnerPc  -- the test for a full lot
  ending : OwnerPc  -- before it sets `simulationEnd`
  posting_auto posting_pickup : OwnerPc
  owner_done : OwnerPc

pub data ValetPc : Type 0 where
  waiting : ValetPc  -- at its first `sem_wait`
  called : ValetPc  -- at its second
  charged : ValetPc  -- at the test of `simulationEnd`
  parking : ValetPc  -- in `sleep`
  moving : ValetPc  -- before it moves the car
  valet_done : ValetPc

-- `signalled` says whether a signal has come, and `posts` how many handlers have still to post.
pub record Lot : Type 0 where
  pub auto : Lane
  pub pickup : Lane
  pub simulation_end : Bool
  pub owner : OwnerPc
  pub auto_valet : ValetPc
  pub pickup_valet : ValetPc
  pub signalled : Bool
  pub posts : ℕ

abbrev pub empty_lane : ℕ → Lane
empty_lane most = record { free_temp = most; free = most; new_car = 0; in_charge = 1 }

-- `init`, and the threads at their starts.
abbrev pub init : Lot
init = record {
  auto = empty_lane max_auto_amount;
  pickup = empty_lane max_pickup_amount;
  simulation_end = false;
  owner = at_head;
  auto_valet = waiting;
  pickup_valet = waiting;
  signalled = false;
  posts = 0;
}

-- A car arrives: it takes a temporary place where one is free and a real place is left for it.
unfoldable pub arrive : ℕ → Lane → Lane
arrive most l =
    if ltb 0 l.free_temp && ltb 0 l.free && ltb most (l.free + l.free_temp)
    then record l { free_temp = l.free_temp - 1; new_car = l.new_car + 1 }
    else l

abbrev pub post_new : Lane → Lane
post_new l = record l { new_car = l.new_car + 1 }

abbrev pub post_charge : Lane → Lane
post_charge l = record l { in_charge = l.in_charge + 1 }

-- A step of an attendant, `e` being `simulationEnd`.
pub data ValetMove (e : Bool) (l : Lane) : ValetPc → Lane → ValetPc → Type 0 where
  wait_new : 0 < l.new_car → ValetMove e l waiting (record l { new_car = l.new_car - 1 }) called
  wait_charge :
      0 < l.in_charge → ValetMove e l called (record l { in_charge = l.in_charge - 1 }) charged
  stop : e ≡ true → ValetMove e l charged (post_charge l) valet_done
  take : e ≡ false → ValetMove e l charged l parking
  parked : ValetMove e l parking (post_charge l) moving
  move : ValetMove e l moving (record l { free_temp = l.free_temp + 1; free = l.free - 1 }) waiting

-- A step of the owner.
pub data OwnerMove (s : Lot) : Lot → OwnerPc → Type 0 where
  go_on : s.owner ≡ at_head → s.simulation_end ≡ false → OwnerMove s s arriving
  give_up : s.owner ≡ at_head → s.simulation_end ≡ true → OwnerMove s s owner_done
  auto_arrives :
      s.owner ≡ arriving → OwnerMove s (record s { auto = arrive max_auto_amount s.auto }) checking
  pickup_arrives :
      s.owner ≡ arriving
      → OwnerMove s (record s { pickup = arrive max_pickup_amount s.pickup }) checking
  not_full : s.owner ≡ checking → (s.auto.free ≢ 0) ⊎ (s.pickup.free ≢ 0) → OwnerMove s s at_head
  is_full : s.owner ≡ checking → s.auto.free ≡ 0 → s.pickup.free ≡ 0 → OwnerMove s s ending
  set_end : s.owner ≡ ending → OwnerMove s (record s { simulation_end = true }) posting_auto
  post_auto :
      s.owner ≡ posting_auto → OwnerMove s (record s { auto = post_new s.auto }) posting_pickup
  post_pickup :
      s.owner ≡ posting_pickup → OwnerMove s (record s { pickup = post_new s.pickup }) owner_done

-- A step of one of the threads, or of `signal_handler`: it sets the flag first, and posts then.
pub data Step (s : Lot) : Lot → Type 0 where
  owner_turn : {t : Lot} {p : OwnerPc} → OwnerMove s t p → Step s (record t { owner = p })
  auto_turn :
      {l : Lane} {p : ValetPc}
      → ValetMove s.simulation_end s.auto s.auto_valet l p
      → Step s (record s { auto = l; auto_valet = p })
  pickup_turn :
      {l : Lane} {p : ValetPc}
      → ValetMove s.simulation_end s.pickup s.pickup_valet l p
      → Step s (record s { pickup = l; pickup_valet = p })
  signal : Step s (record s { simulation_end = true; signalled = true; posts = s.posts + 1 })
  signal_posts :
      0 < s.posts
      → Step s (record s {
        auto = post_charge (post_new s.auto);
        pickup = post_charge (post_new s.pickup);
        posts = s.posts - 1;
      })

pub data Reach : Lot → Type 0 where
  start : Reach init
  next : {s t : Lot} → Reach s → Step s t → Reach t
