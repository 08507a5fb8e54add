-- ===== src/Grades/Book/Lines.antt =====
-- A book: a file of lines as `addStudentGrade` writes them, and how they are read back.
use mathlib.Core.List.{append_assoc, append-nil}
use gtu_cse344_system_progra.Base.{
  ℕ, ◌+◌, ◌≤◌, ◌≡◌, refl, ap, sym, ◌∙◌, some, List, [], ◌∷◌, ◌++◌, length, length-append, map,
  arith,
}
use gtu_cse344_system_progra.Base.Strings.{
  c_string, strtok, Lacks, append-Lacks, c_string-Lacks, strtok_next, strtok_last,
}
use gtu_cse344_system_progra.Grades.Shell.{Bytes}
use gtu_cse344_system_progra.Grades.Book.{student_line, scan}

-- A student with a grade of two letters. The name starts with `first`.
pub record Record : Type 0 where
  pub first : ℕ
  pub more : Bytes
  pub grade : Bytes

abbrev pub name_of : Record → Bytes
name_of r = r.first ∷ r.more

-- A record that fits a line and keeps clear of the delimiters.
pub record IsRecord (r : Record) : Type 0 where
  pub short : length (name_of r) ≤ 29
  pub two : length r.grade ≡ 2
  pub name_comma : Lacks b',' (name_of r)
  pub name_newline : Lacks b'\n' (name_of r)
  pub name_text : Lacks 0 (name_of r)
  pub grade_comma : Lacks b',' r.grade
  pub grade_newline : Lacks b'\n' r.grade
  pub grade_text : Lacks 0 r.grade

abbrev pub AllRecords : List Record → Type 0
AllRecords [] = Unit
AllRecords (r ∷ rs) = IsRecord r × AllRecords rs

abbrev pub line_of : Record → Bytes
line_of r = name_of r ++ (b',' ∷ b' ' ∷ r.grade)

abbrev pub book : List Record → Bytes
book [] = []
book (r ∷ rs) = student_line (name_of r) r.grade ++ book rs

pub book-append :
    (rs : List Record) (r : Record)
    → book (rs ++ (r ∷ [])) ≡ book rs ++ student_line (name_of r) r.grade
book-append [] r = append-nil (student_line (name_of r) r.grade)
book-append (q ∷ rs) r =
    ap (λ b. student_line (name_of q) q.grade ++ b) (book-append rs r)
    ∙ sym (
        append_assoc (student_line (name_of q) q.grade) (book rs)
          (student_line (name_of r) r.grade))

student_line-line_of : (r : Record) → student_line (name_of r) r.grade ≡ line_of r ++ (b'\n' ∷ [])
unfolding student_line
student_line-line_of r = sym (append_assoc (name_of r) (b',' ∷ b' ' ∷ r.grade) (b'\n' ∷ []))

pub length-student_line : (r : Record) → IsRecord r → length (student_line (name_of r) r.grade) ≤ 34
length-student_line r h = rw student_line-line_of (
    omega (
      arith,
      h.short,
      h.two,
      length-append (line_of r) (b'\n' ∷ []),
      length-append (name_of r) (b',' ∷ b' ' ∷ r.grade),
    ))

scan_line :
    (buffer l rest : Bytes)
    → Lacks b'\n' l
    → length buffer + length l ≤ 34
    → scan buffer (l ++ (b'\n' ∷ rest)) ≡ (buffer ++ l) ∷ scan [] rest
unfolding scan
scan_line buffer [] rest h fits = ground (arith, append-nil buffer)
scan_line buffer (c ∷ l) rest h fits = ground (
  arith,
  length-append buffer (c ∷ []),
  append_assoc buffer (c ∷ []) l,
  scan_line (buffer ++ (c ∷ [])) l rest h.1,
)

-- The loop over the characters finds the lines of a book.
pub scan-book : (rs : List Record) → AllRecords rs → scan [] (book rs) ≡ map line_of rs
unfolding scan
scan-book [] h = refl
scan-book (r ∷ rs) h =
    rw (student_line-line_of, append_assoc)
      (scan_line [] (line_of r) (book rs)
          (append-Lacks b'\n' (name_of r) (b',' ∷ b' ' ∷ r.grade) h.0.name_newline
            (refl, (refl, h.0.grade_newline)))
          (omega (arith, h.0.short, h.0.two, length-append (name_of r) (b',' ∷ b' ' ∷ r.grade)))
        ∙ ap (λ ls. line_of r ∷ ls) (scan-book rs h.1))

-- The tokens of a line.
pub strtok-line_of :
    (r : Record)
    → IsRecord r
    → strtok b',' (c_string (line_of r)) ≡ some (name_of r, b' ' ∷ r.grade)
strtok-line_of r h =
    ap (strtok b',') (
      c_string-Lacks (line_of r) (
        append-Lacks 0 (name_of r) (b',' ∷ b' ' ∷ r.grade) h.name_text
          (refl, (refl, h.grade_text))))
    ∙ strtok_next b',' r.first r.more (b' ' ∷ r.grade) h.name_comma

pub strtok-grade :
    (d : ℕ) (grade : Bytes)
    → Lacks d (b' ' ∷ grade)
    → strtok d (b' ' ∷ grade) ≡ some (b' ' ∷ grade, [])
strtok-grade d grade h = strtok_last d b' ' grade h
