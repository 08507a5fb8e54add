-- ===== src/Grades/Sort.antt =====
-- The four sorting functions of HW1/src/main.c, bubble sorts of an array of students in place.
pub mod Bubble
pub mod Order
mod Tests
use gtu_cse344_system_progra.Base.{
  ℕ, zero, suc, ◌-◌, Bool, true, false, List, [], ◌∷◌, ◌==◌, ltb, length, if◌then◌else◌,
}

-- The two arrays by their bytes up to the final 0.
pub record Student : Type 0 where
  pub name : List ℕ
  pub grade : List ℕ

-- `strcmp(a, b) > 0`
unfoldable pub strcmp_gt : List ℕ → List ℕ → Bool
strcmp_gt [] b = false
strcmp_gt (x ∷ a) [] = true
strcmp_gt (x ∷ a) (y ∷ b) =
    let rest = strcmp_gt a b in if ltb y x then true else if x == y then rest else false

-- `strcmp(a, b) < 0`
unfoldable pub strcmp_lt : List ℕ → List ℕ → Bool
unfolding strcmp_gt
strcmp_lt a b = strcmp_gt b a

module _ {ℓ} {A : Type ℓ} (swaps : A → A → Bool) where
  -- The inner loop with `n` rounds left, from the element that `j` is at: two neighbours change places
  -- where the test holds.
  unfoldable pub pass : ℕ → List A → List A
  pass zero xs = xs
  pass (suc n) [] = []
  pass (suc n) (x ∷ []) = x ∷ []
  pass (suc n) (x ∷ y ∷ r) =
      (if swaps x y then y else x) ∷ pass n ((if swaps x y then x else y) ∷ r)

  -- The outer loop, where the inner one has `n` rounds next.
  unfoldable pub passes : ℕ → List A → List A
  unfolding pass
  passes zero xs = xs
  passes (suc n) xs = passes n (pass (suc n) xs)

  unfoldable pub bubble_sort : List A → List A
  unfolding passes
  bubble_sort xs = passes (length xs - 1) xs

unfoldable pub sort_by_name_descending : List Student → List Student
unfolding bubble_sort strcmp_gt
sort_by_name_descending = bubble_sort (λ a b. strcmp_gt a.name b.name)

unfoldable pub sort_by_name_ascending : List Student → List Student
unfolding bubble_sort strcmp_lt
sort_by_name_ascending = bubble_sort (λ a b. strcmp_lt a.name b.name)

unfoldable pub sort_by_grade_descending : List Student → List Student
unfolding bubble_sort strcmp_gt
sort_by_grade_descending = bubble_sort (λ a b. strcmp_gt a.grade b.grade)

unfoldable pub sort_by_grade_ascending : List Student → List Student
unfolding bubble_sort strcmp_lt
sort_by_grade_ascending = bubble_sort (λ a b. strcmp_lt a.grade b.grade)
