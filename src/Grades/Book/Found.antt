-- ===== src/Grades/Book/Found.antt =====
-- Which grade a search finds in a book.
use gtu_cse344_system_progra.Base.{
  ap₂, ◌≡◌, refl, ap, sym, ◌∙◌, true, Option, none, some, List, [], ◌∷◌, ◌++◌, arith, if◌then◌else◌,
  map,
}
use gtu_cse344_system_progra.Base.Strings.{same_name, same_name_self, c_string, strtok}
use gtu_cse344_system_progra.Grades.Shell.{
  Bytes, Printed, found, not_found, Shell, Os, goes_on, log_file, added, with_file, open_file,
  in_child,
}
use gtu_cse344_system_progra.Grades.Book.{
  student_line, buffered, add_opened, add_student_grade, match_name, search_lines, search_opened,
  search_student, report,
}
use gtu_cse344_system_progra.Grades.Book.Lines.{
  Record, name_of, IsRecord, AllRecords, line_of, book, book-append, length-student_line, scan-book,
  strtok-line_of, strtok-grade,
}

-- The grade of the first record with the name, with the blank in front of it.
abbrev pub look_up : Bytes → List Record → Option Bytes
look_up name [] = none
look_up name (r ∷ rs) =
    if same_name (name_of r) name then some (b' ' ∷ r.grade) else look_up name rs

abbrev pub answer : Bytes → Option Bytes → Printed
answer name none = not_found
answer name (some grade) = found name (some grade)

abbrev hit_of : Option Bytes → Option (Option Bytes)
hit_of none = none
hit_of (some grade) = some (some grade)

match_name-line_of :
    (name : Bytes) (r : Record)
    → IsRecord r
    → match_name name (strtok b',' (c_string (line_of r)))
      ≡ (if same_name (name_of r) name then some (some (b' ' ∷ r.grade)) else none)
unfolding match_name
match_name-line_of name r h =
    rw (strtok-line_of r h, strtok-grade b'\n' r.grade (refl, h.grade_newline)) refl

search_lines-book :
    (name : Bytes) (rs : List Record)
    → AllRecords rs
    → search_lines name (map line_of rs) ≡ hit_of (look_up name rs)
unfolding search_lines
search_lines-book name [] h = refl
search_lines-book name (r ∷ rs) h =
    ground (arith, match_name-line_of name r h.0, search_lines-book name rs h.1)

look_up_last :
    (rs : List Record) (r : Record)
    → look_up (name_of r) rs ≡ none
    → look_up (name_of r) (rs ++ (r ∷ [])) ≡ some (b' ' ∷ r.grade)
look_up_last [] r h = rw (same_name_self (name_of r)) refl
look_up_last (q ∷ rs) r h = ground (arith, look_up_last rs r)

AllRecords-concat :
    (rs : List Record) (r : Record) → AllRecords rs → IsRecord r → AllRecords (rs ++ (r ∷ []))
AllRecords-concat [] r h k = (k, tt)
AllRecords-concat (q ∷ rs) r h k = (h.0, AllRecords-concat rs r h.1 k)

printed-report :
    (os : Os) (file name : Bytes) (o : Option Bytes) (s : Shell)
    → (report os file name (hit_of o) s).printed ≡ answer name o ∷ s.printed
unfolding report log_file
printed-report os file name none s = ground arith
printed-report os file name (some grade) s = ground arith

pub files-report :
    (os : Os) (file name : Bytes) (o : Option (Option Bytes)) (s : Shell)
    → (report os file name o s).files ≡ s.files
unfolding report log_file
files-report os file name none s = ground arith
files-report os file name (some grade) s = ground arith

module _ (os : Os) (file : Bytes) (forks : os.fork ≡ true) (waits : os.wait ≡ true)
    (opens : os.open_file ≡ true) where
  in_child_goes : (child : Shell → Shell) (s : Shell) → in_child os child s ≡ goes_on (child s)
  unfolding in_child
  in_child_goes child s = ground arith

  open_file_lem : (s : Shell) → open_file os (some file) s ≡ s.files file
  unfolding open_file
  open_file_lem s = ground arith

  -- Where fork, wait and open succeed, a search in a book prints the name with the grade of the first
  -- record that has the name, or that there is none, and changes no file.
  pub search_student-look_up :
      (name : Bytes) (rs : List Record) (s : Shell)
      → AllRecords rs
      → s.files file ≡ some (book rs)
      → (s' : Shell) × (search_student os (some file) name s ≡ goes_on s')
        × (s'.printed ≡ answer name (look_up name rs) ∷ s.printed)
        × (s'.files ≡ s.files)
  unfolding search_student search_opened
  search_student-look_up name rs s h there = (
    report os file name (hit_of (look_up name rs)) s,
    in_child_goes (λ c. search_opened os (some file) name (open_file os (some file) c) c) s
        ∙ ap (λ c. goes_on (search_opened os (some file) name c s)) (open_file_lem s ∙ there)
        ∙ ap (λ r. goes_on (report os file name r s))
            (ap (search_lines name) (scan-book rs h) ∙ search_lines-book name rs h),
    printed-report os file name (look_up name rs) s,
    files-report os file name (hit_of (look_up name rs)) s,
  )

  added_shell : Record → Bytes → Shell → Shell
  added_shell r content s =
      log_file os (added (name_of r) r.grade)
        (with_file file (content ++ student_line (name_of r) r.grade) s)

  add_opened_lem :
      (r : Record) (content : Bytes) (s : Shell)
      → IsRecord r
      → os.write ≡ none
      → add_opened os (some file) (name_of r) r.grade (some content) s ≡ added_shell r content s
  unfolding add_opened buffered added_shell
  add_opened_lem r content s h writes = ground (arith, length-student_line r h)

  files-added_shell :
      (r : Record) (content : Bytes) (s : Shell)
      → (added_shell r content s).files file ≡ some (content ++ student_line (name_of r) r.grade)
  unfolding added_shell log_file
  files-added_shell r content s = ground (arith, same_name_self file)

  printed-added_shell :
      (r : Record) (content : Bytes) (s : Shell) → (added_shell r content s).printed ≡ s.printed
  unfolding added_shell log_file
  printed-added_shell r content s = ground arith

  -- A grade that has been added is found: where the calls succeed and the book has no record of that
  -- name, adding a record leaves the book with the record behind the others, and a search for the name
  -- then prints its grade.
  pub search-add :
      (r : Record) (rs : List Record) (s : Shell)
      → IsRecord r
      → AllRecords rs
      → os.write ≡ none
      → s.files file ≡ some (book rs)
      → look_up (name_of r) rs ≡ none
      → (s' : Shell) × (add_student_grade os (some file) (name_of r) r.grade s ≡ goes_on s')
        × (s'.files file ≡ some (book (rs ++ (r ∷ []))))
        × (s'' : Shell) × (search_student os (some file) (name_of r) s' ≡ goes_on s'')
        × (s''.printed ≡ found (name_of r) (some (b' ' ∷ r.grade)) ∷ s.printed)
  unfolding add_student_grade
  search-add r rs s h hs writes there fresh = (
    s',
    in_child_goes
          (λ c. add_opened os (some file) (name_of r) r.grade (open_file os (some file) c) c) s
        ∙ ap (λ c. goes_on (add_opened os (some file) (name_of r) r.grade c s))
            (open_file_lem s ∙ there)
        ∙ ap goes_on (add_opened_lem r (book rs) s h writes),
    stored,
    search.0,
    search.1,
    search.2
        ∙ ap₂ (λ o l. answer (name_of r) o ∷ l) (look_up_last rs r fresh)
            (printed-added_shell r (book rs) s),
  )
    where
      s' : Shell
      s' = added_shell r (book rs) s

      stored : s'.files file ≡ some (book (rs ++ (r ∷ [])))
      stored = files-added_shell r (book rs) s ∙ ap some (sym (book-append rs r))

      search :
          (s'' : Shell) × (search_student os (some file) (name_of r) s' ≡ goes_on s'')
          × (s''.printed ≡ answer (name_of r) (look_up (name_of r) (rs ++ (r ∷ []))) ∷ s'.printed)
          × (s''.files ≡ s'.files)
      search =
          search_student-look_up (name_of r) (rs ++ (r ∷ [])) s' (AllRecords-concat rs r hs h)
            stored
