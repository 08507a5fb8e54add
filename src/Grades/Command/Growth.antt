-- ===== src/Grades/Command/Growth.antt =====
-- What becomes of the files over a run of the program.
use gtu_cse344_system_progra.Grades.Book.{max_students}
use gtu_cse344_system_progra.Grades.Book.{sort_students}
use gtu_cse344_system_progra.Base.{
  ◌⊎◌, ℕ, ◌+◌, ◌≡◌, refl, ap, sym, ◌∙◌, true, false, Bool, Bool-cases, inl, inr, Option, none, some,
  List, [], ◌∷◌, ◌++◌, arith, if◌then◌else◌,
}
use gtu_cse344_system_progra.Grades.Book.{
  search_lines, scan, to_students, sort_by, create_or_keep, create_child, add_opened, search_opened,
  sort_opened, print_rows, log_read, student_line, buffered, written,
}
use gtu_cse344_system_progra.Grades.Command.{
  atoi, getting_choice, invalid_choice, choice_of, without_last, get_choice, sort_chosen,
}
use gtu_cse344_system_progra.Grades.Shell.{
  row, sorted_by, write_failed, added, opened_file, invalid_choice, getting_choice, input_failed,
  Bytes, Entry, wait_failed, fork_failed, open_failed, Shell, Os, Next, goes_on, quits, crashes,
  log_file, store, with_file, open_file, in_child, print,
}
use mathlib.Core.List.{append_assoc, append-nil}
use gtu_cse344_system_progra.Base.Strings.{same_name, same_name_eq, c_string}
use gtu_cse344_system_progra.Grades.Sort.{Student}
use gtu_cse344_system_progra.Grades.Book.Found.{files-report}

abbrev pub Files : Type 0
Files = Bytes → Option Bytes

-- Each file of `f` is a file of `g`, with its old content in front.
abbrev pub Grows : Files → Files → Type 0
Grows f g =
    (n content : Bytes) → f n ≡ some content → (more : Bytes) × (g n ≡ some (content ++ more))

-- Where the program crashes, nothing is said.
abbrev pub GrowsTo : Files → Next → Type 0
GrowsTo f (goes_on t) = Grows f t.files
GrowsTo f (quits t) = Grows f t.files
GrowsTo f crashes = Unit

pub Grows-same : (f g : Files) → g ≡ f → Grows f g
Grows-same f g e n content h = ([], ap (λ f. f n) e ∙ h ∙ ap some (sym (append-nil content)))

pub Grows-then : (f g h : Files) → Grows f g → Grows g h → Grows f h
Grows-then f g h p q n content e =
    let (more, e') = p n content e in
    let (more', e'') = q n (content ++ more) e' in
    (more ++ more', e'' ∙ ap some (append_assoc content more more'))

pub GrowsTo-then : (f g : Files) (r : Next) → Grows f g → GrowsTo g r → GrowsTo f r
GrowsTo-then f g (goes_on u) p q = Grows-then f g u.files p q
GrowsTo-then f g (quits u) p q = Grows-then f g u.files p q
GrowsTo-then f g crashes p q = tt

pub files-log_file : (os : Os) (e : Entry) (s : Shell) → (log_file os e s).files ≡ s.files
unfolding log_file
files-log_file os e s = ground arith

files-log_two :
    (os : Os) (e e' : Entry) (s : Shell) → (log_file os e (log_file os e' s)).files ≡ s.files
files-log_two os e e' s = files-log_file os e (log_file os e' s) ∙ files-log_file os e' s

pub Grows-log : (os : Os) (e : Entry) (s : Shell) → Grows s.files (log_file os e s).files
Grows-log os e s = Grows-same s.files (log_file os e s).files (files-log_file os e s)

pub Grows-and_logs :
    (f : Files) (os : Os) (e : Entry) (s : Shell)
    → Grows f s.files
    → Grows f (log_file os e s).files
Grows-and_logs f os e s p = Grows-then f s.files (log_file os e s).files p (Grows-log os e s)

pub GrowsTo-if :
    (b : Bool) (f : Files) (r r' : Next)
    → GrowsTo f r
    → GrowsTo f r'
    → GrowsTo f (if b then r else r')
GrowsTo-if true f r r' h k = h
GrowsTo-if false f r r' h k = k

pub GrowsTo-in_child :
    (os : Os) (child : Shell → Shell) (s : Shell)
    → Grows s.files (child s).files
    → GrowsTo s.files (in_child os child s)
unfolding in_child
GrowsTo-in_child os child s p = elim (Bool-cases os.fork) [
  | inl e ↦ elim (Bool-cases os.wait) [
    | inl e' ↦ rw (e, e') p
    | inr e' ↦ rw (e, e') (Grows-and_logs s.files os wait_failed (child s) p)
  ]
  | inr e ↦ rw e (Grows-log os fork_failed s)
]

-- A child that changes no file.
pub GrowsTo-reads :
    (os : Os) (child : Shell → Shell) (s : Shell)
    → (child s).files ≡ s.files
    → GrowsTo s.files (in_child os child s)
GrowsTo-reads os child s e = GrowsTo-in_child os child s (Grows-same s.files (child s).files e)

choice_cases : (w : Option ℕ) → (w ≡ none) ⊎ ((k : ℕ) × (w ≡ some k))
choice_cases none = inl refl
choice_cases (some k) = inr (k, refl)

Grows-store :
    (f : Files) (file new : Bytes)
    → ((content : Bytes) → f file ≡ some content → (more : Bytes) × (new ≡ content ++ more))
    → Grows f (store file new f)
Grows-store f file new grown n content e = elim (Bool-cases (same_name file n)) [
  | inl h ↦
      let (more, e') = grown content (ap f (same_name_eq file n h) ∙ e) in (more, rw h (ap some e'))
  | inr h ↦ ([], rw h (e ∙ ap some (sym (append-nil content))))
]

Grows-create :
    (file : Bytes) (o : Option Bytes) (s : Shell)
    → s.files file ≡ o
    → Grows s.files (create_or_keep file o s).files
Grows-create file none s e =
    Grows-store s.files file [] (λ content e'. absurd (ground (arith, e, e')))
Grows-create file (some content) s e = Grows-same s.files s.files refl

pub Grows-child :
    (os : Os) (file : Bytes) (s : Shell) → Grows s.files (create_child os file s).files
unfolding create_child
Grows-child os file s = elim (Bool-cases os.create_file) [
  | inl e ↦ rw e (
      Grows-and_logs s.files os (opened_file file) (create_or_keep file (s.files file) s)
        (Grows-create file (s.files file) s refl))
  | inr e ↦ rw e (Grows-log os open_failed s)
]

Grows-write :
    (file content more : Bytes) (s : Shell)
    → s.files file ≡ some content
    → Grows s.files (with_file file (content ++ more) s).files
Grows-write file content more s e =
    Grows-store s.files file (content ++ more) (λ c e'. (more, cc (e, e')))

open_file-files :
    (os : Os) (file content : Bytes) (s : Shell)
    → open_file os (some file) s ≡ some content
    → s.files file ≡ some content
unfolding open_file
open_file-files os file content s e = ground (arith, e)

pub Grows-add :
    (os : Os) (file : Option Bytes) (name grade : Bytes) (o : Option Bytes) (s : Shell)
    → open_file os file s ≡ o
    → Grows s.files (add_opened os file name grade o s).files
unfolding add_opened
Grows-add os none name grade o s e = Grows-log os open_failed s
Grows-add os (some file) name grade none s e = Grows-log os open_failed s
Grows-add os (some file) name grade (some content) s e = elim (choice_cases os.write) [
  | inl h ↦ rw h (Grows-and_logs s.files os (added name grade) (s' none) (p none))
  | inr (k, h) ↦ rw h (Grows-and_logs s.files os write_failed (s' (some k)) (p (some k)))
]
  where
    line : Bytes
    line = buffered os.behind (student_line name grade)

    s' : Option ℕ → Shell
    s' w = with_file file (content ++ written w line) s

    p : (w : Option ℕ) → Grows s.files (s' w).files
    p w = Grows-write file content (written w line) s (open_file-files os file content s e)

pub files-search_opened :
    (os : Os) (file : Option Bytes) (name : Bytes) (o : Option Bytes) (s : Shell)
    → (search_opened os file name o s).files ≡ s.files
unfolding search_opened
files-search_opened os none name o s = files-log_file os open_failed s
files-search_opened os (some file) name none s = files-log_file os open_failed s
files-search_opened os (some file) name (some content) s =
    files-report os file name (search_lines name (scan [] content)) s

files-print_rows : (i : ℕ) (xs : List Student) (s : Shell) → (print_rows i xs s).files ≡ s.files
unfolding print_rows
files-print_rows i [] s = refl
files-print_rows i (x ∷ xs) s = files-print_rows (i + 1) xs (print (row i x) s)

files-sort_students :
    (os : Os) (choice : ℕ) (o : Option (List Student)) (s : Shell)
    → (sort_students os choice o s).files ≡ s.files
unfolding sort_students log_read log_file
files-sort_students os choice none s = refl
files-sort_students os choice (some students) s =
    files-print_rows 0 (sort_by choice students) (log_file os (sorted_by choice) (log_read os s))
    ∙ files-log_file os (sorted_by choice) (log_read os s)
    ∙ ground arith

files-sort_opened :
    (os : Os) (choice : ℕ) (o : Option Bytes) (s : Shell)
    → (sort_opened os choice o s).files ≡ s.files
unfolding sort_opened log_file
files-sort_opened os choice none s = files-log_file os open_failed s
files-sort_opened os choice (some content) s =
    files-sort_students os choice (to_students max_students (scan [] content)) s

pub files-get_choice :
    (os : Os) (lines : List Bytes) (s : Shell) → (get_choice os lines s).1.files ≡ s.files
unfolding get_choice
files-get_choice os [] s = files-log_two os input_failed getting_choice s
files-get_choice os ([] ∷ more) s = files-log_two os input_failed getting_choice s
files-get_choice os ((c ∷ line) ∷ more) s =
    elim (choice_cases (choice_of (atoi (c_string (without_last (c ∷ line)))))) [
      | inl h ↦
          rw (get_choice, h)
            (files-get_choice os more (log_file os invalid_choice (log_file os getting_choice s))
              ∙ files-log_two os invalid_choice getting_choice s)
      | inr (k, h) ↦ rw (get_choice, h) (files-log_file os getting_choice s)
    ]

pub GrowsTo-sort_chosen :
    (os : Os) (file : Bytes) (r : Option ℕ × Shell) → GrowsTo r.1.files (sort_chosen os file r)
unfolding sort_chosen
GrowsTo-sort_chosen os file (none, s) = Grows-same s.files s.files refl
GrowsTo-sort_chosen os file (some choice, s) =
    GrowsTo-reads os (λ c. sort_opened os choice (open_file os (some file) c) c) s
      (files-sort_opened os choice (open_file os (some file) s) s)
