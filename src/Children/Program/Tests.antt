-- ===== src/Children/Program/Tests.antt =====
-- Runs of `main` of HW2/src/main.c.
use gtu_cse344_system_progra.Base.{true, false, [], ◌∷◌}
use gtu_cse344_system_progra.Base.Int.{pos}
use gtu_cse344_system_progra.Children.Program.{Calls, main}
use gtu_cse344_system_progra.Children.Program.Ending.{Leaves, fifo1_stays, fifo2_stays, main-Leaves}
use gtu_cse344_system_progra.Children.Program.Reaping.{Counting}

-- The children have ended by the third test.
abbrev calls : Calls
calls = record {
  fifo1_there = false;
  fifo2_there = false;
  fifo1_made = true;
  fifo2_made = true;
  malloc = true;
  fork2 = true;
  fork1 = true;
  open2 = true;
  write2 = λ i. true;
  open1 = true;
  write1 = λ i. true;
  child_counter = λ i. i;
  signal = λ p. false;
}

abbrev no_child1 : Calls
no_child1 = record calls { fork1 = false }

main-Leaves_example :
    Leaves
      (fifo1_stays no_child1 (pos 1))
      (fifo2_stays no_child1 (pos 1))
      (main no_child1 (pos 1) (6 ∷ []))
main-Leaves_example = main-Leaves no_child1 (pos 1) (6 ∷ [])

-- Both children end before the handler runs.
abbrev reaped : Counting
reaped = record {
  forked = 2;
  running = 0;
  ended = [];
  pending = false;
  handling = false;
  child_counter = 2;
}
