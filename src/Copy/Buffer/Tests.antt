-- ===== src/Copy/Buffer/Tests.antt =====
-- The buffer of `buffer.c` with two places, one of them taken, and some threads that use it.
use gtu_cse344_system_progra.Base.{ℕ, ◌+◌, ◌≡◌, refl, false, List, [], ◌∷◌, ◌++◌, arith}
use gtu_cse344_system_progra.Copy.Buffer.Defs.{BufferElement, Buffer}
use gtu_cse344_system_progra.Copy.Buffer.Inv.{IsValid}
use gtu_cse344_system_progra.Copy.Buffer.Fifo.{contents, view}
use gtu_cse344_system_progra.Copy.Buffer.History.{
  Call, push, pop, set_done, run, fifo_run, pushed_of, popped_of, run_refines, run_order,
}

abbrev item : ℕ → BufferElement
item n = record { src_fd = n; dest_fd = n + 1; filename = n ∷ [] }

abbrev half : Buffer
half = record {
  items = item 10 ∷ item 20 ∷ [];
  capacity = 2;
  in_index = 0;
  out_index = 1;
  count = 1;
  done = false;
}

half-IsValid : IsValid half
half-IsValid = record {
  positive = omega arith;
  storage = omega arith;
  out_in = omega arith;
  count_in = omega arith;
  next = refl;
}

-- The third push finds the buffer full, and the pops empty it.
abbrev calls : List Call
calls = push (item 30) ∷ push (item 40) ∷ pop ∷ push (item 40) ∷ set_done ∷ pop ∷ pop ∷ pop ∷ []

run_refines_example : let (es, b') = run half calls in (es, view b') ≡ fifo_run 2 (view half) calls
run_refines_example = run_refines half calls half-IsValid

run_order_example :
    let (es, b') = run half calls in contents half ++ pushed_of es ≡ popped_of es ++ contents b'
run_order_example = run_order half calls half-IsValid
