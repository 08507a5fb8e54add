-- ===== src/Grades/Book/Parsed.antt =====
-- The students that `sortAll` reads from a book, and the order in which it prints them.
use gtu_cse344_system_progra.Base.{Bool}
use gtu_cse344_system_progra.Grades.Sort.{strcmp_gt}
use gtu_cse344_system_progra.Grades.Sort.{strcmp_lt}
use gtu_cse344_system_progra.Grades.Book.{max_students}
use gtu_cse344_system_progra.Grades.Book.{sort_students}
use gtu_cse344_system_progra.Base.{
  if◌then◌else◌, zero, suc, ℕ, ◌+◌, ◌≤◌, ◌≡◌, refl, ap, ◌∙◌, some, List, [], ◌∷◌, length, take, map,
  arith, Bool-cases, inl, inr, ◌==◌,
}
use gtu_cse344_system_progra.Grades.Book.{
  sorted_by, to_student, to_students, sort_by, scan, print_rows, sort_opened, log_read,
}
use gtu_cse344_system_progra.Grades.Shell.{Entry, Bytes, Printed, row, Shell, Os, print, log_file}
use mathlib.Core.List.{Perm}
use gtu_cse344_system_progra.Base.Strings.{c_string, strtok}
use gtu_cse344_system_progra.Grades.Sort.{Student}
use gtu_cse344_system_progra.Grades.Sort.Bubble.{IsSorted}
use gtu_cse344_system_progra.Grades.Sort.Order.{descending_ascends, ascending_descends}
use gtu_cse344_system_progra.Grades.Book.Lines.{
  Record, name_of, IsRecord, AllRecords, line_of, book, scan-book, strtok-line_of, strtok-grade,
}

-- The grade keeps the blank that stands in front of it.
abbrev pub as_student : Record → Student
as_student r = record { name = name_of r; grade = b' ' ∷ r.grade }

-- The rows in the order in which they are printed, the last one first.
abbrev pub rows_from : ℕ → List Student → List Printed → List Printed
rows_from i [] out = out
rows_from i (x ∷ xs) out = rows_from (i + 1) xs (row i x ∷ out)

take_all : (n : ℕ) (b : Bytes) → length b ≤ n → take n b ≡ b
take_all zero [] h = refl
take_all (suc n) [] h = refl
take_all zero (c ∷ b) h = absurd (omega arith)
take_all (suc n) (c ∷ b) h = ap (λ l. c ∷ l) (take_all n b (omega arith))

to_student-line_of :
    (r : Record)
    → IsRecord r
    → to_student (strtok b',' (c_string (line_of r))) ≡ some (as_student r)
unfolding to_student
to_student-line_of r h = ground (
  arith,
  strtok-line_of r h,
  strtok-grade b',' r.grade (refl, h.grade_comma),
  take_all 29 (name_of r) h.short,
  take_all 3 (b' ' ∷ r.grade) (omega (arith, h.two)),
)

to_students-line_of :
    (room : ℕ) (rs : List Record)
    → AllRecords rs
    → length rs ≤ room
    → to_students room (map line_of rs) ≡ some (map as_student rs)
unfolding to_students
to_students-line_of room [] h small = refl
to_students-line_of zero (r ∷ rs) h small = absurd (omega arith)
to_students-line_of (suc room) (r ∷ rs) h small =
    ground (arith, to_student-line_of r h.0, to_students-line_of room rs h.1 (omega arith))

-- What `sortAll` reads from a book are the students that were added to it, in their order.
pub to_students-book :
    (rs : List Record)
    → AllRecords rs
    → length rs ≤ max_students
    → to_students max_students (scan [] (book rs)) ≡ some (map as_student rs)
to_students-book rs h small =
    ap (to_students max_students) (scan-book rs h) ∙ to_students-line_of max_students rs h small

-- The order that each choice of the menu gives: whether the first student may not stand in front of
-- the second. 1 and 3 have no smaller name or grade in front of a greater one, 2 and 4 no greater one
-- in front of a smaller one.
abbrev pub misplaced : ℕ → Student → Student → Bool
misplaced choice =
    if choice == 1
    then (λ a b. strcmp_lt a.name b.name)
    else if choice == 2
    then (λ a b. strcmp_gt a.name b.name)
    else if choice == 3
    then (λ a b. strcmp_lt a.grade b.grade)
    else (λ a b. strcmp_gt a.grade b.grade)

sort_by-IsSorted :
    (choice : ℕ) (students : List Student)
    → IsSorted (misplaced choice) (sort_by choice students)
      × Perm (sort_by choice students) students
unfolding sort_by
sort_by-IsSorted choice students = elim (Bool-cases (choice == 1)) [
  | inl e ↦ rw e ((ascending_descends students).0, (ascending_descends students).1)
  | inr e ↦ elim (Bool-cases (choice == 2)) [
    | inl f ↦ rw (e, f) ((descending_ascends students).0, (descending_ascends students).1)
    | inr f ↦ elim (Bool-cases (choice == 3)) [
      | inl g ↦ rw (e, f, g) ((ascending_descends students).2, (ascending_descends students).3)
      | inr g ↦ rw (e, f, g) ((descending_ascends students).2, (descending_ascends students).3)
    ]
  ]
]

printed-print_rows :
    (i : ℕ) (xs : List Student) (s : Shell) → (print_rows i xs s).printed ≡ rows_from i xs s.printed
unfolding print_rows
printed-print_rows i [] s = refl
printed-print_rows i (x ∷ xs) s = printed-print_rows (i + 1) xs (print (row i x) s)

printed-log :
    (os : Os) (s : Shell) (e : Entry) → (log_file os e (log_read os s)).printed ≡ s.printed
unfolding log_file log_read
printed-log os s e = ground arith

-- On a book of at most 100 students that can be opened, `sortAll` prints each student that was added,
-- once, with a number from 0, and in the order of the choice: with 1 no smaller name and with 3 no
-- smaller grade comes before a greater one, with 2 and 4 no greater one before a smaller one.
pub sort_opened-book :
    (os : Os) (choice : ℕ) (rs : List Record) (s : Shell)
    → AllRecords rs
    → length rs ≤ 100
    → (students : List Student) × ((sort_opened os choice (some (book rs)) s).printed
        ≡ rows_from 0 students s.printed)
      × Perm students (map as_student rs)
      × IsSorted (misplaced choice) students
unfolding sort_opened sort_students
sort_opened-book os choice rs s h small = (
  sort_by choice (map as_student rs),
  rw (to_students-book rs h small) (
      printed-print_rows 0 (sort_by choice (map as_student rs))
        (log_file os (sorted_by choice) (log_read os s))
      ∙ ap (rows_from 0 (sort_by choice (map as_student rs)))
          (printed-log os s (sorted_by choice))),
  (sort_by-IsSorted choice (map as_student rs)).1,
  (sort_by-IsSorted choice (map as_student rs)).0,
)
