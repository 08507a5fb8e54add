-- ===== src/Grades/Shell.antt =====
-- What the commands of HW1/src/main.c read and change. Every command runs in a forked child, for
-- which the parent waits; the files and the log are shared, and nothing else of the child comes back.
use gtu_cse344_system_progra.Base.{ℕ, Bool, not, Option, none, some, List, ◌∷◌, if◌then◌else◌}
use gtu_cse344_system_progra.Base.Int.{ℤ}
use gtu_cse344_system_progra.Base.Strings.{same_name}
use gtu_cse344_system_progra.Grades.Sort.{Student}

abbrev pub Bytes : Type 0
Bytes = List ℕ

-- What goes to the terminal, apart from messages.
pub data Printed : Type 0 where
  found : Bytes → Option Bytes → Printed  -- the student, and the grade where there is one
  not_found : Printed
  piece : Bytes → Printed
  row : ℕ → Student → Printed
  overrun : Printed  -- what follows a write past the array of students

-- The entries of events.log.
pub data Entry : Type 0 where
  input : Bytes → Entry
  fork_failed wait_failed open_failed write_failed read_failed brk_failed : Entry
  invalid_format invalid_grade invalid_choice getting_choice input_failed : Entry
  manual_printed demo_finished : Entry
  opened_file : Bytes → Entry
  added : Bytes → Bytes → Entry
  was_found was_not_found : Bytes → Bytes → Entry
  sorted_by : ℕ → Entry
  all_listed first_listed : Bytes → Entry
  page_listed : ℤ → ℤ → Bytes → Entry

-- `printed` and `log` have the last entry first. `files` gives the content of a file that is there.
pub record Shell : Type 0 where
  pub filename : Option Bytes
  pub files : Bytes → Option Bytes
  pub printed : List Printed
  pub log : List Entry

-- What the calls of one command return. `write` is `none` where all bytes are written, and `some k`
-- where the call fails behind the first `k`. `behind` is what memory holds behind an array. `choices`
-- is what `sortAll` reads, one after the other, until a read fails. `log_open` tells whether the log
-- can be opened.
pub record Os : Type 0 where
  pub fork : Bool
  pub wait : Bool
  pub open_file : Bool
  pub create_file : Bool
  pub read_all : Bool  -- false: the read behind the last byte fails
  pub write : Option ℕ
  pub brk : Bool
  pub behind : ℕ → Bytes
  pub choices : List Bytes
  pub log_open : Bool

pub data Next : Type 0 where
  goes_on quits : Shell → Next
  crashes : Next

-- What comes after goes on only where the program does.
abbrev pub and_then : Next → (Shell → Next) → Next
and_then (goes_on s) more = more s
and_then (quits s) more = quits s
and_then crashes more = crashes

abbrev pub print : Printed → Shell → Shell
print p s = record s { printed = p ∷ s.printed }

-- `logFile`, whose child opens, appends and closes the log. The fork of it is taken to succeed: where
-- it fails the function calls itself, for as long as it fails.
unfoldable pub log_file : Os → Entry → Shell → Shell
log_file os e s = if os.log_open then record s { log = e ∷ s.log } else s

-- The file of a name after it has been written.
abbrev pub store : Bytes → Bytes → (Bytes → Option Bytes) → Bytes → Option Bytes
store file content files n = if same_name file n then some content else files n

abbrev pub with_file : Bytes → Bytes → Shell → Shell
with_file file content s = record s { files = store file content s.files }

-- `open` without O_CREAT; a name that is NULL fails.
unfoldable pub open_file : Os → Option Bytes → Shell → Option Bytes
open_file os none s = none
open_file os (some file) s = if os.open_file then s.files file else none

-- The frame of `createFile`, `addStudentGrade`, `searchStudent` and `sortAll`.
unfoldable pub in_child : Os → (Shell → Shell) → Shell → Next
unfolding log_file
in_child os child s =
    if not os.fork
    then quits (log_file os fork_failed s)
    else if not os.wait
    then quits (log_file os wait_failed (child s))
    else goes_on (child s)

-- The frame of `showAll` and `listGrades`, which return where the fork fails.
unfoldable pub in_lister : Os → (Shell → Shell) → Shell → Next
unfolding log_file
in_lister os child s =
    if not os.fork
    then goes_on (log_file os fork_failed s)
    else if not os.wait
    then quits (log_file os wait_failed (child s))
    else goes_on (child s)
