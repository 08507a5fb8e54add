-- ===== src/Copy/Barrier/Tests.antt =====
-- One worker and one file, until the manager has passed the barrier.
use gtu_cse344_system_progra.Base.{◌≡◌, ℕ, refl, [], ◌∷◌, arith, ℕ_discrete, List, false}
use gtu_cse344_system_progra.Base.Family.{update}
use gtu_cse344_system_progra.Copy.Crew.Defs.{Crew, Run, stop, then}
use gtu_cse344_system_progra.Copy.Crew.Tests.{a_file, bare_buffer, last_crew, last_crew-Run}
use gtu_cse344_system_progra.Copy.Barrier.{
  waiting, left, Hall, manager_waits, manager_leaves, worker_waits, works, manager_moves,
  worker_moves, hall_at_start, HallRun, stay, move,
}
use gtu_cse344_system_progra.Copy.Buffer.Defs.{no_element}
use gtu_cse344_system_progra.Copy.Buffer.History
use gtu_cse344_system_progra.Copy.Buffer.History.{Call, push, pop, set_done}
use gtu_cse344_system_progra.Copy.Barrier.Store.{Buffer}
use gtu_cse344_system_progra.Copy.Barrier.Store.Same.{forget, run, run_alike}

run-HallRun :
    {n : ℕ} (h : Hall) {k : ℕ} {s : Crew} → Run n h.crew k s → HallRun n h (record h { crew = s })
run-HallRun h stop = stay
run-HallRun h (then r st) = move (run-HallRun h r) (works st)

abbrev a_hall : Hall
a_hall = hall_at_start bare_buffer (a_file ∷ [])

abbrev worked_hall : Hall
worked_hall = record a_hall { crew = last_crew }

abbrev worker_hall : Hall
worker_hall = record worked_hall { worker = update worked_hall.worker 0 waiting; arrived = 1 }

abbrev full_hall : Hall
full_hall = record worker_hall { manager = waiting; arrived = 2 }

abbrev pub left_hall : Hall
left_hall = record full_hall { manager = left }

pub left_hall-HallRun : HallRun 1 (hall_at_start bare_buffer (a_file ∷ [])) left_hall
unfolding ℕ_discrete
left_hall-HallRun =
    move
      (move
        (move (run-HallRun a_hall last_crew-Run)
          (worker_moves (worker_waits 0 (omega arith) refl refl)))
        (manager_moves (manager_waits refl refl)))
      (manager_moves (manager_leaves refl refl))

abbrev a_store : Buffer
a_store = record {
  items = no_element ∷ [];
  capacity = 1;
  in_index = 0;
  out_index = 0;
  count = 0;
  done = false;
  barrier = 7;
}

-- The second push finds the buffer full.
abbrev calls : List Call
calls = push a_file ∷ push a_file ∷ pop ∷ set_done ∷ pop ∷ []

run_alike_example :
    ((run a_store calls).0 ≡ (History.run bare_buffer calls).0)
    × (forget (run a_store calls).1 ≡ (History.run bare_buffer calls).1)
    × ((run a_store calls).1.barrier ≡ 7)
run_alike_example = run_alike a_store calls
