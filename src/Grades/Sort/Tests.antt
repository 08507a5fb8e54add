-- ===== src/Grades/Sort/Tests.antt =====
-- Three students, two of them with the same grade.
use mathlib.Core.List.{Perm}
use gtu_cse344_system_progra.Base.{List, [], ◌∷◌}
use gtu_cse344_system_progra.Grades.Sort.{
  Student, strcmp_lt, sort_by_name_ascending, sort_by_grade_ascending,
}
use gtu_cse344_system_progra.Grades.Sort.Bubble.{IsSorted}
use gtu_cse344_system_progra.Grades.Sort.Order.{ascending_descends}

abbrev class : List Student
class =
    record { name = b'C' ∷ []; grade = b'A' ∷ b'A' ∷ [] }
    ∷ record { name = b'A' ∷ []; grade = b'B' ∷ b'A' ∷ [] }
    ∷ record { name = b'B' ∷ []; grade = b'A' ∷ b'A' ∷ [] }
    ∷ []

ascending_descends_example :
    IsSorted (λ a b. strcmp_lt a.name b.name) (sort_by_name_ascending class)
    × Perm (sort_by_name_ascending class) class
    × IsSorted (λ a b. strcmp_lt a.grade b.grade) (sort_by_grade_ascending class)
    × Perm (sort_by_grade_ascending class) class
ascending_descends_example = ascending_descends class
