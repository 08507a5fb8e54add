-- ===== src/Children/Safety.antt =====
-- What the second child prints.
use gtu_cse344_system_progra.Base.{ℕ, ◌+◌, ◌%◌, ◌<◌, ◌≡◌, ◌≢◌, Option, List, [], ◌∷◌, ◌++◌, arith}
use gtu_cse344_system_progra.Children.{
  int_mod, fill, refused, product_from, sum_from, prints, World, at_first, Run,
}
use gtu_cse344_system_progra.Children.Inv.{IsRight}
use gtu_cse344_system_progra.Children.Steps.{multiplier_at, Run-Inv}

fill_ints : (rs xs : List ℕ) (x : ℕ) (ys : List ℕ) → xs ++ (x ∷ ys) ≡ fill rs → x < 4294967296
unfolding fill
fill_ints [] [] x ys e = absurd (cc e)
fill_ints [] (y ∷ xs) x ys e = absurd (cc e)
fill_ints (r ∷ rs) [] x ys e = ground (arith, e)
fill_ints (r ∷ rs) (y ∷ xs) x ys e = fill_ints rs xs x ys (cc e)

sum_from-lt : (s : ℕ) (xs : List ℕ) → s < 4294967296 → sum_from s xs < 4294967296
unfolding sum_from
sum_from-lt s [] h = h
sum_from-lt s (x ∷ xs) h = sum_from-lt ((s + x) % int_mod) xs (omega arith)

-- What the second child prints, for any array that the parent fills and in any interleaving: the product
-- is that of the array, and the sum is that of the array, as far as the variable was written at all;
-- both wrap as an `int` of 32 bits does.
pub prints-IsRight :
    (rs : List ℕ) {w : World} {v : Option ℕ} {r : ℕ}
    → Run (fill rs) at_first w
    → w.multiplier ≡ prints v r
    → (r ≡ product_from 1 (fill rs)) × IsRight (fill rs) v
prints-IsRight rs run m =
    let j =
      multiplier_at (fill rs) (fill_ints rs) (sum_from-lt 0 (fill rs) (omega arith)) m
        (Run-Inv (fill rs) (fill_ints rs) (sum_from-lt 0 (fill rs) (omega arith)) run) in
    (j.1, j.2)

-- The second child never refuses the command.
pub never_refused : (rs : List ℕ) {w : World} → Run (fill rs) at_first w → w.multiplier ≢ refused
never_refused rs run m =
    multiplier_at (fill rs) (fill_ints rs) (sum_from-lt 0 (fill rs) (omega arith)) m
      (Run-Inv (fill rs) (fill_ints rs) (sum_from-lt 0 (fill rs) (omega arith)) run)
