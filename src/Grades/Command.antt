-- ===== src/Grades/Command.antt =====
-- `main` of HW1/src/main.c: one round of its loop takes a line of input, and runs a command. The
-- bytes that name the file stand at the old break of the program; what else it keeps on its heap is
-- not modelled.
pub mod Growth
pub mod Calls
pub mod Run
pub mod Adding
pub mod Letters
use gtu_cse344_system_progra.Base.{
  false, ℕ, ◌+◌, ◌||◌, Bool, Option, none, some, List, [], ◌∷◌, ◌==◌, leb, if◌then◌else◌, map,
}
use gtu_cse344_system_progra.Base.Int.{ℤ, pos, negsuc}
use gtu_cse344_system_progra.Base.Strings.{same_name, c_string, strtok, codes}
use gtu_cse344_system_progra.Grades.Shell.{
  Bytes, input, invalid_format, invalid_grade, invalid_choice, getting_choice, input_failed,
  brk_failed, manual_printed, demo_finished, Shell, Os, Next, goes_on, quits, crashes, and_then,
  log_file, open_file, in_child,
}
use gtu_cse344_system_progra.Grades.Tokens.{quote, nth_token, to_lower, to_upper, atoi, valid_grade}
use gtu_cse344_system_progra.Grades.Book.{
  create_file, add_student_grade, search_student, sort_opened,
}
use gtu_cse344_system_progra.Grades.Paging.{show_all, list_grades, list_some}

-- The bytes of a read of at least one byte, the last of which becomes a 0.
abbrev pub without_last : Bytes → Bytes
without_last [] = []
without_last (c ∷ []) = []
without_last (c ∷ d ∷ s) = c ∷ without_last (d ∷ s)

unfoldable pub choice_of : ℤ → Option ℕ
choice_of (negsuc n) = none
choice_of (pos n) = if n == 0 || leb 5 n then none else some n

-- The loop of `sortAll` that asks for the order: the order, and none where a read fails.
unfoldable pub get_choice : Os → List Bytes → Shell → Option ℕ × Shell
unfolding log_file atoi c_string choice_of
get_choice os [] s = (none, log_file os input_failed (log_file os getting_choice s))
get_choice os ([] ∷ more) s = (none, log_file os input_failed (log_file os getting_choice s))
get_choice os ((c ∷ line) ∷ more) s = elim (choice_of (atoi (c_string (without_last (c ∷ line))))) [
  | none ↦ get_choice os more (log_file os invalid_choice (log_file os getting_choice s))
  | some choice ↦ (some choice, log_file os getting_choice s)
]

unfoldable pub sort_chosen : Os → Bytes → Option ℕ × Shell → Next
unfolding in_child open_file sort_opened
sort_chosen os file (none, s) = quits s
sort_chosen os file (some choice, s) =
    in_child os (λ c. sort_opened os choice (open_file os (some file) c) c) s

unfoldable pub sort_all : Os → Bytes → Shell → Next
unfolding get_choice sort_chosen
sort_all os file s = sort_chosen os file (get_choice os os.choices s)

-- The functions that `main` calls.
pub data Call : Type 0 where
  create : Bytes → Call
  add : Option Bytes → Bytes → Bytes → Call
  search : Option Bytes → Bytes → Call
  sort show list : Bytes → Call
  page : ℤ → ℤ → Bytes → Call

unfoldable pub call : Os → Call → Shell → Next
unfolding create_file add_student_grade search_student sort_all show_all list_grades list_some
call os (create file) s = create_file os file s
call os (add file name grade) s = add_student_grade os file name grade s
call os (search file name) s = search_student os file name s
call os (sort file) s = sort_all os file s
call os (show file) s = show_all os file s
call os (list file) s = list_grades os file s
call os (page entries number file) s = list_some os entries number file s

-- Each call of a command meets calls of the system of its own.
unfoldable pub run_calls : (ℕ → Os) → List Call → Shell → Next
unfolding call
run_calls os [] s = goes_on s
run_calls os (c ∷ cs) s = and_then (call (os 0) c s) (run_calls (λ k. os (k + 1)) cs)

abbrev pub default_name : Bytes
default_name = codes "default.txt"

abbrev pub default_grade : Bytes × Bytes → Call
default_grade (name, grade) = add (some default_name) name grade

abbrev pub default_calls : List Call
default_calls =
    create default_name
    ∷ default_grade (codes "student a", codes "CC")
    ∷ default_grade (codes "student b", codes "CB")
    ∷ default_grade (codes "student c", codes "BA")
    ∷ default_grade (codes "student d", codes "BB")
    ∷ default_grade (codes "student e", codes "FF")
    ∷ default_grade (codes "student f", codes "NA")
    ∷ default_grade (codes "student g", codes "VF")
    ∷ default_grade (codes "student h", codes "BA")
    ∷ default_grade (codes "student i", codes "AA")
    ∷ default_grade (codes "student j", codes "CC")
    ∷ default_grade (codes "student k", codes "CA")
    ∷ default_grade (codes "student l", codes "FF")
    ∷ default_grade (codes "student m", codes "BA")
    ∷ default_grade (codes "student n", codes "BB")
    ∷ default_grade (codes "student o", codes "AA")
    ∷ default_grade (codes "student p", codes "DD")
    ∷ search (some default_name) (codes "student a")
    ∷ search (some default_name) (codes "student h")
    ∷ search (some default_name) (codes "student p")
    ∷ sort default_name
    ∷ sort default_name
    ∷ sort default_name
    ∷ sort default_name
    ∷ show default_name
    ∷ list default_name
    ∷ page (pos 5) (pos 1) default_name
    ∷ page (pos 8) (pos 2) default_name
    ∷ page (pos 4) (pos 3) default_name
    ∷ []

-- The commands on a file: the name is copied to the break, and becomes the current file.
unfoldable pub on_file : Os → (Bytes → Call) → Option Bytes → Shell → Next
unfolding log_file call
on_file os command none s = goes_on (log_file os invalid_format s)
on_file os command (some name) s =
    if os.brk
    then call os (command name) (record s { filename = some name })
    else quits (log_file os brk_failed s)

unfoldable pub add_command : Os → Option Bytes → Option Bytes → Shell → Next
unfolding log_file call valid_grade to_lower to_upper
add_command os none grade s = goes_on (log_file os invalid_format s)
add_command os (some name) none s = goes_on (log_file os invalid_format s)
add_command os (some name) (some grade) s =
    if valid_grade (map to_upper grade)
    then call os (add s.filename (map to_lower name) (map to_upper grade)) s
    else goes_on (log_file os invalid_grade s)

unfoldable pub search_command : Os → Option Bytes → Shell → Next
unfolding log_file call to_lower
search_command os none s = goes_on (log_file os invalid_format s)
search_command os (some name) s = call os (search s.filename (map to_lower name)) s

abbrev pub is_zero : ℤ → Bool
is_zero (pos n) = n == 0
is_zero (negsuc n) = false

-- `atoi` of a token that is not there crashes.
unfoldable pub page_command : Os → Option Bytes → Option Bytes → Option Bytes → Shell → Next
unfolding on_file atoi
page_command os none second name s = crashes
page_command os (some first) none name s = crashes
page_command os (some first) (some second) name s =
    if is_zero (atoi first) || is_zero (atoi second)
    then goes_on s
    else on_file os (page (atoi first) (atoi second)) name s

-- The comparisons of the first token, in their order.
pub data Keyword : Type 0 where
  open_book leave manual default_test add_grade search_for sort_book show_book list_book list_page
        unknown :
      Keyword

unfoldable pub keyword : Bytes → Keyword
unfolding same_name
keyword token =
    if same_name token (codes "gtuStudentGrades ")
    then open_book
    else if same_name token (codes "quit")
    then leave
    else if same_name token (codes "gtuStudentGrades")
    then manual
    else if same_name token (codes "defaultTest")
    then default_test
    else if same_name token (codes "addStudentGrade ")
    then add_grade
    else if same_name token (codes "searchStudent ")
    then search_for
    else if same_name token (codes "sortAll ")
    then sort_book
    else if same_name token (codes "showAll ")
    then show_book
    else if same_name token (codes "listGrades ")
    then list_book
    else if same_name token (codes "listSome ")
    then list_page
    else unknown

-- What each of them leads to, with what the first token leaves of the line.
unfoldable pub dispatch : (ℕ → Os) → Keyword → Bytes → Shell → Next
unfolding run_calls on_file add_command search_command page_command nth_token log_file
dispatch os open_book rest s = on_file (os 0) create (nth_token 0 rest) s
dispatch os leave rest s = quits s
dispatch os manual rest s = goes_on (log_file (os 0) manual_printed s)
dispatch os default_test rest s =
    and_then (run_calls os default_calls s) (λ s'. goes_on (log_file (os 0) demo_finished s'))
dispatch os add_grade rest s = add_command (os 0) (nth_token 0 rest) (nth_token 2 rest) s
dispatch os search_for rest s = search_command (os 0) (nth_token 0 rest) s
dispatch os sort_book rest s = on_file (os 0) sort (nth_token 0 rest) s
dispatch os show_book rest s = on_file (os 0) show (nth_token 0 rest) s
dispatch os list_book rest s = on_file (os 0) list (nth_token 0 rest) s
dispatch os list_page rest s =
    page_command (os 0) (nth_token 0 rest) (nth_token 2 rest) (nth_token 4 rest) s
dispatch os unknown rest s = goes_on s

-- A first token that is not there is compared all the same.
unfoldable pub first_token : (ℕ → Os) → Option (Bytes × Bytes) → Shell → Next
unfolding dispatch keyword
first_token os none s = crashes
first_token os (some (token, rest)) s = dispatch os (keyword token) rest s

unfoldable pub run_command : (ℕ → Os) → Bytes → Shell → Next
unfolding first_token strtok log_file
run_command os command s = first_token os (strtok quote command) (log_file (os 0) (input command) s)

-- A round, on what `read` has taken: none where it fails, else at least a byte.
unfoldable pub round : (ℕ → Os) → Option Bytes → Shell → Next
unfolding run_command c_string
round os none s = goes_on s
round os (some bytes) s = run_command os (c_string (without_last bytes)) s

-- `main`, over the lines that it reads.
unfoldable pub main : List ((ℕ → Os) × Option Bytes) → Shell → Next
unfolding round
main [] s = goes_on s
main ((os, bytes) ∷ more) s = and_then (round os bytes s) (main more)
