-- ===== src/Children/Tests.antt =====
-- One number: a run in which the sum arrives, and one in which it does not.
use gtu_cse344_system_progra.Base.{ℕ, ◌≡◌, refl, none, some, [], ◌∷◌, arith}
use gtu_cse344_system_progra.Base.Strings.{c_string, same_name}
use gtu_cse344_system_progra.Children.{
  fill, product_from, waits_for_children, opens_input, added, prints, World, meet_fifo2,
  write_number, write_command, close_fifo2, meet_fifo1, write_addend, close_fifo1, add_number,
  close_input, meet_again, write_sum, close_output, read_number, read_command, close_array,
  read_sum, at_first, Run, stop, then,
}
use gtu_cse344_system_progra.Children.Inv.{IsRight}
use gtu_cse344_system_progra.Children.Safety.{prints-IsRight}
use gtu_cse344_system_progra.Children.Race.{sum_missed}

abbrev last_world : World
last_world = record {
  parent = waits_for_children;
  adder = added;
  multiplier = prints (some 7) 7;
  fifo1 = [];
  fifo2 = [];
}

good_run : Run (fill (6 ∷ [])) at_first last_world
unfolding fill c_string same_name product_from
good_run =
    then
      (then
        (then
          (then
            (then
              (then
                (then
                  (then
                    (then
                      (then
                        (then
                          (then
                            (then
                              (then (then (then stop (meet_fifo2 refl refl)) (write_number refl))
                                (write_command refl))
                              (read_number refl (omega arith)))
                            (close_fifo2 refl))
                          (read_command refl (omega arith)))
                        (close_array refl))
                      (meet_fifo1 refl refl))
                    (write_addend refl))
                  (close_fifo1 refl))
                (add_number refl (omega arith)))
              (close_input refl))
            (meet_again refl refl))
          (write_sum refl refl))
        (close_output refl))
      (read_sum refl (omega arith))

prints-IsRight_example : (7 ≡ product_from 1 (fill (6 ∷ []))) × IsRight (fill (6 ∷ [])) (some 7)
prints-IsRight_example = prints-IsRight (6 ∷ []) good_run refl

sum_missed_example :
    (w : World) × Run (fill (6 ∷ [])) at_first w
    × (w.adder ≡ opens_input)
    × (r : ℕ) × (w.multiplier ≡ prints none r)
sum_missed_example = sum_missed (6 ∷ [])
