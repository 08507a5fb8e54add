-- ===== src/Grades/Tests.antt =====
-- The book of grades at concrete inputs.
use gtu_cse344_system_progra.Base.{◌⊎◌}
use gtu_cse344_system_progra.Base.{
  ◌≡◌, refl, true, none, some, List, [], ◌∷◌, ◌++◌, map, arith, if◌then◌else◌,
}
use gtu_cse344_system_progra.Base.Int.{pos}
use gtu_cse344_system_progra.Base.Strings.{codes, same_name}
use mathlib.Core.List.{Perm}
use gtu_cse344_system_progra.Grades.Sort.{Student}
use gtu_cse344_system_progra.Grades.Sort.Bubble.{IsSorted}
use gtu_cse344_system_progra.Grades.Book.Parsed.{misplaced}
use gtu_cse344_system_progra.Grades.Shell.{
  Bytes, found, input, invalid_grade, Shell, Os, goes_on, log_file,
}
use gtu_cse344_system_progra.Grades.Command.Letters.{grades, IsAmong, Spells, InLower}
use gtu_cse344_system_progra.Grades.Book.{add_student_grade, search_student, sort_opened}
use gtu_cse344_system_progra.Grades.Book.Lines.{Record, name_of, IsRecord, book}
use gtu_cse344_system_progra.Grades.Book.Found.{look_up, search-add}
use gtu_cse344_system_progra.Grades.Book.Parsed.{as_student, rows_from, sort_opened-book}
use gtu_cse344_system_progra.Grades.Paging.{page_part}
use gtu_cse344_system_progra.Grades.Paging.Pages.{text, page_lines}
use gtu_cse344_system_progra.Grades.Command.{run_command, main}
use gtu_cse344_system_progra.Grades.Command.Adding.{add_line, add_grade_line}
use gtu_cse344_system_progra.Grades.Command.Growth.{GrowsTo}
use gtu_cse344_system_progra.Grades.Command.Run.{main-GrowsTo}

abbrev good_os : Os
good_os = record {
  fork = true;
  wait = true;
  open_file = true;
  create_file = true;
  read_all = true;
  write = none;
  brk = true;
  behind = λ n. [];
  choices = [];
  log_open = true;
}

abbrev ann : Record
ann = record { first = b'a'; more = codes "nn"; grade = codes "AA" }

abbrev bob : Record
bob = record { first = b'b'; more = codes "ob"; grade = codes "CB" }

ann-IsRecord : IsRecord ann
ann-IsRecord = record {
  short = omega arith;
  two = refl;
  name_comma = (refl, (refl, (refl, tt)));
  name_newline = (refl, (refl, (refl, tt)));
  name_text = (refl, (refl, (refl, tt)));
  grade_comma = (refl, (refl, tt));
  grade_newline = (refl, (refl, tt));
  grade_text = (refl, (refl, tt));
}

bob-IsRecord : IsRecord bob
bob-IsRecord = record {
  short = omega arith;
  two = refl;
  name_comma = (refl, (refl, (refl, tt)));
  name_newline = (refl, (refl, (refl, tt)));
  name_text = (refl, (refl, (refl, tt)));
  grade_comma = (refl, (refl, tt));
  grade_newline = (refl, (refl, tt));
  grade_text = (refl, (refl, tt));
}

abbrev one_book : Shell
one_book = record {
  filename = some (codes "f");
  files = λ n. if same_name (codes "f") n then some (book (bob ∷ [])) else none;
  printed = [];
  log = [];
}

one_book-files : one_book.files (codes "f") ≡ some (book (bob ∷ []))
unfolding same_name
one_book-files = refl

nobody : look_up (name_of ann) (bob ∷ []) ≡ none
unfolding same_name
nobody = refl

search-add_example :
    (s' : Shell) × (add_student_grade good_os (some (codes "f")) (name_of ann) ann.grade one_book
      ≡ goes_on s')
    × (s'.files (codes "f") ≡ some (book (bob ∷ ann ∷ [])))
    × (s'' : Shell) × (search_student good_os (some (codes "f")) (name_of ann) s' ≡ goes_on s'')
    × (s''.printed ≡ found (name_of ann) (some (b' ' ∷ ann.grade)) ∷ one_book.printed)
search-add_example =
    search-add good_os (codes "f") refl refl refl ann (bob ∷ []) one_book ann-IsRecord
      (bob-IsRecord, tt) refl one_book-files nobody

sort_opened-book_example :
    (students : List Student) × ((sort_opened good_os 1
        (some (book (ann ∷ bob ∷ [])))
        one_book).printed
      ≡ rows_from 0 students [])
    × Perm students (map as_student (ann ∷ bob ∷ []))
    × IsSorted (misplaced 1) students
sort_opened-book_example =
    sort_opened-book good_os 1 (ann ∷ bob ∷ []) one_book (ann-IsRecord, (bob-IsRecord, tt))
      (omega arith)

abbrev three_lines : List Bytes
three_lines = codes "a" ∷ codes "b" ∷ codes "c" ∷ []

page_lines_example :
    page_part (pos 2) (pos 2) (text three_lines) ≡ b'\n' ∷ codes "c" ++ (b'\n' ∷ [])
page_lines_example = page_lines 2 1 three_lines ((refl, tt), ((refl, tt), ((refl, tt), tt)))

main-GrowsTo_example : GrowsTo one_book.files (
    main
      (((λ k. good_os), some (add_line (codes "Cem") (codes "aa") ++ (b'\n' ∷ []))) ∷ [])
      one_book)
main-GrowsTo_example =
    main-GrowsTo (((λ k. good_os), some (add_line (codes "Cem") (codes "aa") ++ (b'\n' ∷ []))) ∷ [])
      one_book

add_grade_line_example :
    let line = add_line (codes "Cem") (codes "cb") in
    let s' = log_file good_os (input line) one_book in
    (small : Bytes) × InLower (codes "Cem") small
    × (((g : Bytes) × IsAmong g grades
          × Spells (codes "cb") g
          × (run_command (λ k. good_os) line one_book
              ≡ add_student_grade good_os s'.filename small g s'))
        ⊎ ((g : Bytes) → IsAmong g grades → ¬ Spells (codes "cb") g)
          × (run_command (λ k. good_os) line one_book
              ≡ goes_on (log_file good_os invalid_grade s')))
add_grade_line_example =
    add_grade_line (λ k. good_os) b'C' b'c' (codes "em") (codes "b") one_book
      (refl, (refl, (refl, tt))) (refl, (refl, tt)) (refl, (refl, (refl, tt))) (refl, (refl, tt))
      (omega arith)
