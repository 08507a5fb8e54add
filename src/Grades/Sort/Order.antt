-- ===== src/Grades/Sort/Order.antt =====
-- The order in which each of the four functions leaves the students.
use mathlib.Core.List.{Perm}
use gtu_cse344_system_progra.Base.{ℕ, ◌≡◌, refl, true, false, List, [], ◌∷◌, arith}
use gtu_cse344_system_progra.Grades.Sort.{
  Student, strcmp_gt, strcmp_lt, sort_by_name_descending, sort_by_name_ascending,
  sort_by_grade_descending, sort_by_grade_ascending,
}
use gtu_cse344_system_progra.Grades.Sort.Bubble.{
  IsStrict, IsSorted, bubble_sort-IsSorted, bubble_sort-perm,
}

strcmp_gt_asym : (a b : List ℕ) → strcmp_gt a b ≡ true → strcmp_gt b a ≡ false
unfolding strcmp_gt
strcmp_gt_asym [] b h = cc
strcmp_gt_asym (x ∷ a) [] h = refl
strcmp_gt_asym (x ∷ a) (y ∷ b) h = ground (arith, strcmp_gt_asym a b)

strcmp_gt_trans :
    (a b c : List ℕ) → strcmp_gt a b ≡ false → strcmp_gt b c ≡ false → strcmp_gt a c ≡ false
unfolding strcmp_gt
strcmp_gt_trans [] b c h k = refl
strcmp_gt_trans (x ∷ a) [] c h k = cc
strcmp_gt_trans (x ∷ a) (y ∷ b) [] h k = cc
strcmp_gt_trans (x ∷ a) (y ∷ b) (z ∷ c) h k = ground (arith, strcmp_gt_trans a b c)

gt_by : (key : Student → List ℕ) → IsStrict (λ a b. strcmp_gt (key a) (key b))
gt_by key = record {
  asym = λ x y h. strcmp_gt_asym (key x) (key y) h;
  trans = λ x y z h k. strcmp_gt_trans (key x) (key y) (key z) h k;
}

lt_by : (key : Student → List ℕ) → IsStrict (λ a b. strcmp_lt (key a) (key b))
unfolding strcmp_lt
lt_by key = record {
  asym = λ x y h. strcmp_gt_asym (key y) (key x) h;
  trans = λ x y z h k. strcmp_gt_trans (key z) (key y) (key x) k h;
}

-- `sortByNameDescending` leaves the students with no greater name in front of a smaller one, and
-- `sortByGradeDescending` does so by grade: both orders ascend. Both keep the students.
pub descending_ascends :
    (students : List Student)
    → IsSorted (λ a b. strcmp_gt a.name b.name) (sort_by_name_descending students)
      × Perm (sort_by_name_descending students) students
      × IsSorted (λ a b. strcmp_gt a.grade b.grade) (sort_by_grade_descending students)
      × Perm (sort_by_grade_descending students) students
unfolding sort_by_name_descending sort_by_grade_descending
descending_ascends xs = (
  bubble_sort-IsSorted (λ a b. strcmp_gt a.name b.name) (gt_by (λ s. s.name)) xs,
  bubble_sort-perm (λ a b. strcmp_gt a.name b.name) xs,
  bubble_sort-IsSorted (λ a b. strcmp_gt a.grade b.grade) (gt_by (λ s. s.grade)) xs,
  bubble_sort-perm (λ a b. strcmp_gt a.grade b.grade) xs,
)

-- `sortByNameAscending` leaves the students with no smaller name in front of a greater one, and
-- `sortByGradeAscending` does so by grade: both orders descend. Both keep the students.
pub ascending_descends :
    (students : List Student)
    → IsSorted (λ a b. strcmp_lt a.name b.name) (sort_by_name_ascending students)
      × Perm (sort_by_name_ascending students) students
      × IsSorted (λ a b. strcmp_lt a.grade b.grade) (sort_by_grade_ascending students)
      × Perm (sort_by_grade_ascending students) students
unfolding sort_by_name_ascending sort_by_grade_ascending
ascending_descends xs = (
  bubble_sort-IsSorted (λ a b. strcmp_lt a.name b.name) (lt_by (λ s. s.name)) xs,
  bubble_sort-perm (λ a b. strcmp_lt a.name b.name) xs,
  bubble_sort-IsSorted (λ a b. strcmp_lt a.grade b.grade) (lt_by (λ s. s.grade)) xs,
  bubble_sort-perm (λ a b. strcmp_lt a.grade b.grade) xs,
)
