-- ===== src/Grades/Book.antt =====
-- The files of students of HW1/src/main.c: making one, adding a grade, and looking a student up.
pub mod Lines
pub mod Found
pub mod Parsed
use gtu_cse344_system_progra.Base.{suc}
use gtu_cse344_system_progra.Base.{
  ℕ, zero, suc, ◌+◌, ◌-◌, true, false, ◌||◌, Option, none, some, List, [], ◌∷◌, ◌++◌, ◌==◌, leb,
  length, take, if◌then◌else◌,
}
use gtu_cse344_system_progra.Base.Strings.{same_name, c_string, strtok}
use gtu_cse344_system_progra.Grades.Sort.{
  Student, sort_by_name_descending, sort_by_name_ascending, sort_by_grade_descending,
  sort_by_grade_ascending,
}
use gtu_cse344_system_progra.Grades.Shell.{
  Bytes, found, not_found, row, overrun, open_failed, write_failed, opened_file, added, was_found,
  was_not_found, sorted_by, read_failed, Shell, Os, Next, print, log_file, with_file, open_file,
  in_child,
}

-- The child of `createFile`: an old file keeps its content.
abbrev pub create_or_keep : Bytes → Option Bytes → Shell → Shell
create_or_keep file none s = with_file file [] s
create_or_keep file (some content) s = s

unfoldable pub create_child : Os → Bytes → Shell → Shell
unfolding log_file
create_child os file s =
    if os.create_file
    then log_file os (opened_file file) (create_or_keep file (s.files file) s)
    else log_file os open_failed s

unfoldable pub create_file : Os → Bytes → Shell → Next
unfolding in_child create_child
create_file os file s = in_child os (create_child os file) s

-- `snprintf` into the array of 35 bytes, and the bytes that `write` then takes: as many as the line
-- would have, of the array and of what lies behind it.
abbrev pub max_line_length : ℕ
max_line_length = 35

unfoldable pub student_line : Bytes → Bytes → Bytes
student_line name grade = name ++ (b',' ∷ b' ' ∷ (grade ++ (b'\n' ∷ [])))

unfoldable pub buffered : (ℕ → Bytes) → Bytes → Bytes
buffered behind line =
    if leb max_line_length (length line)
    then take (max_line_length - 1) line ++ (0 ∷ behind (length line - max_line_length))
    else line

abbrev pub written : Option ℕ → Bytes → Bytes
written none b = b
written (some k) b = take k b

unfoldable pub add_opened : Os → Option Bytes → Bytes → Bytes → Option Bytes → Shell → Shell
unfolding log_file student_line buffered
add_opened os none name grade content s = log_file os open_failed s
add_opened os (some file) name grade none s = log_file os open_failed s
add_opened os (some file) name grade (some content) s =
    let line = buffered os.behind (student_line name grade) in
    let s' = with_file file (content ++ written os.write line) s in
    elim os.write [
      | none ↦ log_file os (added name grade) s'
      | some k ↦ log_file os write_failed s'
    ]

unfoldable pub add_student_grade : Os → Option Bytes → Bytes → Bytes → Shell → Next
unfolding in_child open_file add_opened
add_student_grade os file name grade s =
    in_child os (λ c. add_opened os file name grade (open_file os file c) c) s

-- The loop over the characters of a file: the lines that it hands to the tokens. A line ends at a
-- newline, or at the character behind its 34th, which is dropped; what stands behind the last
-- newline is not a line. `buffer` is the line so far.
unfoldable pub scan : Bytes → Bytes → List Bytes
scan buffer [] = []
scan buffer (ch ∷ rest) = elim (ch == b'\n' || leb (max_line_length - 1) (length buffer)) [
  | true ↦ buffer ∷ scan [] rest
  | false ↦ scan (buffer ++ (ch ∷ [])) rest
]

-- The test of `searchStudent` on a line, and the grade of it: none where no token is left.
abbrev pub grade_token : Option (Bytes × Bytes) → Option Bytes
grade_token none = none
grade_token (some (token, rest)) = some token

unfoldable pub match_name : Bytes → Option (Bytes × Bytes) → Option (Option Bytes)
match_name name none = none
match_name name (some (token, rest)) =
    if same_name token name then some (grade_token (strtok b'\n' rest)) else none

unfoldable pub search_lines : Bytes → List Bytes → Option (Option Bytes)
unfolding match_name
search_lines name [] = none
search_lines name (line ∷ lines) = elim (match_name name (strtok b',' (c_string line))) [
  | none ↦ search_lines name lines
  | some grade ↦ some grade
]

unfoldable pub report : Os → Bytes → Bytes → Option (Option Bytes) → Shell → Shell
unfolding log_file
report os file name none s = log_file os (was_not_found name file) (print not_found s)
report os file name (some grade) s = log_file os (was_found name file) (print (found name grade) s)

unfoldable pub search_opened : Os → Option Bytes → Bytes → Option Bytes → Shell → Shell
unfolding report search_lines scan
search_opened os none name content s = log_file os open_failed s
search_opened os (some file) name none s = log_file os open_failed s
search_opened os (some file) name (some content) s =
    report os file name (search_lines name (scan [] content)) s

unfoldable pub search_student : Os → Option Bytes → Bytes → Shell → Next
unfolding in_child open_file search_opened
search_student os file name s =
    in_child os (λ c. search_opened os file name (open_file os file c) c) s

-- The students of `sortAll`, from the tokens of each line: the name up to 29 bytes, the grade up to
-- 3. A line without two tokens is passed over.
unfoldable pub to_student : Option (Bytes × Bytes) → Option Student
to_student none = none
to_student (some (token, rest)) = elim (strtok b',' rest) [
  | none ↦ none
  | some (token', _) ↦ some (record { name = take 29 token; grade = take 3 token' })
]

-- The array of students has room for 100 of them, which no test looks at: `none` where a name is
-- written behind its end.
abbrev pub max_students : ℕ
max_students = 100

abbrev pub cons_student : Student → Option (List Student) → Option (List Student)
cons_student student none = none
cons_student student (some students) = some (student ∷ students)

unfoldable pub to_students : ℕ → List Bytes → Option (List Student)
unfolding to_student
to_students room [] = some []
to_students zero (line ∷ lines) = elim (strtok b',' (c_string line)) [
  | none ↦ to_students zero lines
  | some token ↦ none
]
to_students (suc room) (line ∷ lines) = elim (to_student (strtok b',' (c_string line))) [
  | none ↦ to_students (suc room) lines
  | some student ↦ cons_student student (to_students room lines)
]

unfoldable pub sort_by : ℕ → List Student → List Student
sort_by choice students =
    if choice == 1
    then sort_by_name_ascending students
    else if choice == 2
    then sort_by_name_descending students
    else if choice == 3
    then sort_by_grade_ascending students
    else sort_by_grade_descending students

unfoldable pub print_rows : ℕ → List Student → Shell → Shell
print_rows i [] s = s
print_rows i (x ∷ xs) s = print_rows (i + 1) xs (print (row i x) s)

-- A failed read ends the loop over the characters.
unfoldable pub log_read : Os → Shell → Shell
unfolding log_file
log_read os s = if os.read_all then s else log_file os read_failed s

-- What the child does behind a write past its array is undefined; `overrun` stands for all of it.
unfoldable pub sort_students : Os → ℕ → Option (List Student) → Shell → Shell
unfolding log_file log_read sort_by print_rows
sort_students os choice none s = print overrun s
sort_students os choice (some students) s =
    print_rows 0 (sort_by choice students) (log_file os (sorted_by choice) (log_read os s))

unfoldable pub sort_opened : Os → ℕ → Option Bytes → Shell → Shell
unfolding log_file scan to_students sort_students
sort_opened os choice none s = log_file os open_failed s
sort_opened os choice (some content) s =
    sort_students os choice (to_students max_students (scan [] content)) s
