-- ===== src/Children/Race.antt =====
-- The second child can miss the sum.
use mathlib.Core.List.{append_assoc, append-nil}
use gtu_cse344_system_progra.Base.{
  ℕ, ◌≡◌, refl, sym, none, List, [], ◌∷◌, ◌++◌, length, take, arith, subst,
}
use gtu_cse344_system_progra.Base.Strings.{c_string, same_name}
use gtu_cse344_system_progra.Children.Words.{Bytes, int_bytes, bytes_int}
use gtu_cse344_system_progra.Children.{
  fill, product_from, command, Parent, closes_fifo2, opens_fifo1, writes_fifo2, opens_input,
  Multiplier, reads_array, opens_again, prints, World, after_command, meet_fifo2, write_number,
  write_command, close_fifo2, read_number, read_command, close_array, open_again, read_nothing,
  at_first, Run, stop, then,
}
use gtu_cse344_system_progra.Children.Inv.{ints}

-- The first child has not yet opened FIFO1.
abbrev before : Parent → Multiplier → Bytes → World
before p m f = record { parent = p; adder = opens_input; multiplier = m; fifo1 = []; fifo2 = f }

module _ (a : List ℕ) where
  writes_all :
      (m : Multiplier) (xs : List ℕ) (f : Bytes)
      → Run a at_first (before (writes_fifo2 xs) m f)
      → Run a at_first (before (writes_fifo2 []) m (f ++ ints xs))
  writes_all m [] f r =
      subst (λ b. Run a at_first (before (writes_fifo2 []) m b)) (sym (append-nil f)) r
  writes_all m (x ∷ xs) f r =
      subst (λ b. Run a at_first (before (writes_fifo2 []) m b))
        (append_assoc f (int_bytes x) (ints xs))
        (writes_all m xs (f ++ int_bytes x) (then r (write_number refl)))

  reads_all :
      (p : Parent) (us ys : List ℕ) (tail : Bytes)
      → Run a at_first (before p (reads_array (length us) ys) (ints us ++ tail))
      → (zs : List ℕ) × Run a at_first (before p (reads_array 0 zs) tail)
  reads_all p [] ys tail r = (ys, r)
  reads_all p (u ∷ us) ys tail r =
      reads_all p us (ys ++ (bytes_int (int_bytes u) ∷ [])) tail
        (then r (read_number refl (omega arith)))

  opens_twice : (zs : List ℕ) → after_command (take 20 command) zs ≡ opens_again (product_from 1 zs)
  unfolding c_string same_name
  opens_twice zs = refl

  misses :
      (zs : List ℕ)
      → Run a at_first (before closes_fifo2 (reads_array 0 zs) command)
      → Run a at_first (before opens_fifo1 (prints none (product_from 1 zs)) [])
  misses zs r =
      then
        (then
          (then
            (subst (λ m. Run a at_first (before closes_fifo2 m [])) (opens_twice zs)
              (then (then r (read_command refl (omega arith))) (close_array refl)))
            (open_again refl refl))
          (close_fifo2 refl))
        (read_nothing refl refl refl)

-- For every array there is a run without a failing call in which the second child ends before the first
-- one has opened a FIFO, and prints a sum that was never written.
pub sum_missed :
    (rs : List ℕ)
    → (w : World) × Run (fill rs) at_first w
      × (w.adder ≡ opens_input)
      × (r : ℕ) × (w.multiplier ≡ prints none r)
sum_missed rs =
    let a = fill rs in
    let sent =
      then (writes_all a (reads_array (length a) []) a [] (then stop (meet_fifo2 refl refl)))
        (write_command refl) in
    let (zs, r) = reads_all a closes_fifo2 a [] command sent in
    (
      before opens_fifo1 (prints none (product_from 1 zs)) [],
      misses a zs r,
      refl,
      product_from 1 zs,
      refl,
    )
