-- ===== src/Grades/Command/Calls.antt =====
-- Every call of `main` keeps what the files hold.
use gtu_cse344_system_progra.Base.{subst, ◌≡◌, refl, Bool-cases, inl, inr, Option, none, some}
use gtu_cse344_system_progra.Grades.Book.{
  create_child, create_file, add_opened, add_student_grade, search_opened, search_student,
}
use gtu_cse344_system_progra.Grades.Command.{
  ℤ, get_choice, sort_chosen, sort_all, Call, create, add, search, sort, show, list, page, call,
}
use gtu_cse344_system_progra.Grades.Shell.{
  Bytes, wait_failed, fork_failed, open_failed, Shell, Os, open_file, in_lister, print,
}
use gtu_cse344_system_progra.Grades.Paging.{
  show_opened, show_all, list_opened, list_grades, some_opened, list_some,
}
use gtu_cse344_system_progra.Grades.Command.Growth.{
  Grows, GrowsTo, Grows-same, files-log_file, Grows-log, Grows-and_logs, GrowsTo-in_child,
  GrowsTo-reads, Grows-child, Grows-add, files-search_opened, files-get_choice, GrowsTo-sort_chosen,
}

GrowsTo-in_lister :
    (os : Os) (child : Shell → Shell) (s : Shell)
    → (child s).files ≡ s.files
    → GrowsTo s.files (in_lister os child s)
unfolding in_lister
GrowsTo-in_lister os child s e = elim (Bool-cases os.fork) [
  | inl h ↦ elim (Bool-cases os.wait) [
    | inl h' ↦ rw (h, h') (Grows-same s.files (child s).files e)
    | inr h' ↦
        rw (h, h')
          (Grows-and_logs s.files os wait_failed (child s) (Grows-same s.files (child s).files e))
  ]
  | inr h ↦ rw h (Grows-log os fork_failed s)
]

files-show_opened :
    (os : Os) (file : Bytes) (o : Option Bytes) (s : Shell)
    → (show_opened os file o s).files ≡ s.files
unfolding show_opened
files-show_opened os file none s = files-log_file os open_failed s
files-show_opened os file (some content) s = files-log_file os _ (print _ s)

files-list_opened :
    (os : Os) (file : Bytes) (o : Option Bytes) (s : Shell)
    → (list_opened os file o s).files ≡ s.files
unfolding list_opened
files-list_opened os file none s = files-log_file os open_failed s
files-list_opened os file (some content) s = files-log_file os _ (print _ s)

files-some_opened :
    (os : Os) (n p : ℤ) (file : Bytes) (o : Option Bytes) (s : Shell)
    → (some_opened os n p file o s).files ≡ s.files
unfolding some_opened
files-some_opened os n p file none s = files-log_file os open_failed s
files-some_opened os n p file (some content) s = files-log_file os _ (print _ s)

GrowsTo-list_some :
    (os : Os) (n p : ℤ) (file : Bytes) (s : Shell) → GrowsTo s.files (list_some os n p file s)
unfolding list_some
GrowsTo-list_some os n p file s = elim (Bool-cases os.fork) [
  | inl h ↦ elim (Bool-cases os.wait) [ inl h' ↦ rw (h, h') read | inr h' ↦ rw (h, h') read ]
  | inr h ↦ rw h (Grows-log os fork_failed s)
]
  where
    read : Grows s.files (some_opened os n p file (open_file os (some file) s) s).files
    read = Grows-same s.files _ (files-some_opened os n p file (open_file os (some file) s) s)

pub GrowsTo-call : (os : Os) (c : Call) (s : Shell) → GrowsTo s.files (call os c s)
unfolding call create_file add_student_grade search_student sort_all show_all list_grades
GrowsTo-call os (create file) s =
    GrowsTo-in_child os (create_child os file) s (Grows-child os file s)
GrowsTo-call os (add file name grade) s =
    GrowsTo-in_child os (λ c. add_opened os file name grade (open_file os file c) c) s
      (Grows-add os file name grade (open_file os file s) s refl)
GrowsTo-call os (search file name) s =
    GrowsTo-reads os (λ c. search_opened os file name (open_file os file c) c) s
      (files-search_opened os file name (open_file os file s) s)
GrowsTo-call os (sort file) s =
    subst (λ f. GrowsTo f (sort_chosen os file (get_choice os os.choices s)))
      (files-get_choice os os.choices s) (GrowsTo-sort_chosen os file (get_choice os os.choices s))
GrowsTo-call os (show file) s =
    GrowsTo-in_lister os (λ c. show_opened os file (open_file os (some file) c) c) s
      (files-show_opened os file (open_file os (some file) s) s)
GrowsTo-call os (list file) s =
    GrowsTo-in_lister os (λ c. list_opened os file (open_file os (some file) c) c) s
      (files-list_opened os file (open_file os (some file) s) s)
GrowsTo-call os (page n p file) s = GrowsTo-list_some os n p file s
