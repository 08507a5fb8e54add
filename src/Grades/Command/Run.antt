-- ===== src/Grades/Command/Run.antt =====
-- What becomes of the files over a run of the program.
use gtu_cse344_system_progra.Grades.Command.Calls.{GrowsTo-call}
use gtu_cse344_system_progra.Base.{ℕ, ◌+◌, refl, ◌||◌, Option, none, some, List, [], ◌∷◌, map}
use gtu_cse344_system_progra.Base.Strings.{strtok, c_string}
use gtu_cse344_system_progra.Grades.Shell.{
  Bytes, input, invalid_format, invalid_grade, brk_failed, demo_finished, manual_printed, Shell, Os,
  Next, goes_on, quits, crashes, and_then, log_file,
}
use gtu_cse344_system_progra.Grades.Tokens.{quote, nth_token, to_lower, to_upper, atoi, valid_grade}
use gtu_cse344_system_progra.Grades.Command.{
  Call, create, add, search, sort, show, list, page, call, default_calls, run_calls, on_file,
  add_command, search_command, is_zero, page_command, Keyword, open_book, leave, manual,
  default_test, add_grade, search_for, sort_book, show_book, list_book, list_page, unknown, keyword,
  dispatch, first_token, run_command, without_last, round, main,
}
use gtu_cse344_system_progra.Grades.Command.Growth.{
  Files, GrowsTo, GrowsTo-if, GrowsTo-then, Grows-same, Grows-log,
}

GrowsTo-and_then :
    (f : Files) (r : Next) (more : Shell → Next)
    → GrowsTo f r
    → ((s : Shell) → GrowsTo s.files (more s))
    → GrowsTo f (and_then r more)
GrowsTo-and_then f (goes_on s) more h k = GrowsTo-then f s.files (more s) h (k s)
GrowsTo-and_then f (quits s) more h k = h
GrowsTo-and_then f crashes more h k = tt

GrowsTo-run_calls : (os : ℕ → Os) (cs : List Call) (s : Shell) → GrowsTo s.files (run_calls os cs s)
unfolding run_calls
GrowsTo-run_calls os [] s = Grows-same s.files s.files refl
GrowsTo-run_calls os (c ∷ cs) s =
    GrowsTo-and_then s.files (call (os 0) c s) (run_calls (λ k. os (k + 1)) cs)
      (GrowsTo-call (os 0) c s) (GrowsTo-run_calls (λ k. os (k + 1)) cs)

GrowsTo-on_file :
    (os : Os) (c : Bytes → Call) (name : Option Bytes) (s : Shell)
    → GrowsTo s.files (on_file os c name s)
unfolding on_file
GrowsTo-on_file os c none s = Grows-log os invalid_format s
GrowsTo-on_file os c (some name) s =
    GrowsTo-if os.brk s.files (call os (c name) s') (quits (log_file os brk_failed s))
      (GrowsTo-call os (c name) s') (Grows-log os brk_failed s)
  where
    s' : Shell
    s' = record s { filename = some name }

GrowsTo-add_command :
    (os : Os) (name grade : Option Bytes) (s : Shell)
    → GrowsTo s.files (add_command os name grade s)
unfolding add_command
GrowsTo-add_command os none grade s = Grows-log os invalid_format s
GrowsTo-add_command os (some name) none s = Grows-log os invalid_format s
GrowsTo-add_command os (some name) (some grade) s =
    GrowsTo-if (valid_grade (map to_upper grade)) s.files
      (call os (add s.filename (map to_lower name) (map to_upper grade)) s)
      (goes_on (log_file os invalid_grade s))
      (GrowsTo-call os (add s.filename (map to_lower name) (map to_upper grade)) s)
      (Grows-log os invalid_grade s)

GrowsTo-search_command :
    (os : Os) (name : Option Bytes) (s : Shell) → GrowsTo s.files (search_command os name s)
unfolding search_command
GrowsTo-search_command os none s = Grows-log os invalid_format s
GrowsTo-search_command os (some name) s = GrowsTo-call os (search s.filename (map to_lower name)) s

GrowsTo-page_command :
    (os : Os) (n p name : Option Bytes) (s : Shell) → GrowsTo s.files (page_command os n p name s)
unfolding page_command
GrowsTo-page_command os none p name s = tt
GrowsTo-page_command os (some n) none name s = tt
GrowsTo-page_command os (some n) (some p) name s =
    GrowsTo-if (is_zero (atoi n) || is_zero (atoi p)) s.files (goes_on s)
      (on_file os (page (atoi n) (atoi p)) name s) (Grows-same s.files s.files refl)
      (GrowsTo-on_file os (page (atoi n) (atoi p)) name s)

GrowsTo-dispatch :
    (os : ℕ → Os) (k : Keyword) (rest : Bytes) (s : Shell) → GrowsTo s.files (dispatch os k rest s)
unfolding dispatch
GrowsTo-dispatch os open_book rest s = GrowsTo-on_file (os 0) create (nth_token 0 rest) s
GrowsTo-dispatch os leave rest s = Grows-same s.files s.files refl
GrowsTo-dispatch os manual rest s = Grows-log (os 0) manual_printed s
GrowsTo-dispatch os default_test rest s =
    GrowsTo-and_then s.files (run_calls os default_calls s)
      (λ s'. goes_on (log_file (os 0) demo_finished s')) (GrowsTo-run_calls os default_calls s)
      (λ s'. Grows-log (os 0) demo_finished s')
GrowsTo-dispatch os add_grade rest s =
    GrowsTo-add_command (os 0) (nth_token 0 rest) (nth_token 2 rest) s
GrowsTo-dispatch os search_for rest s = GrowsTo-search_command (os 0) (nth_token 0 rest) s
GrowsTo-dispatch os sort_book rest s = GrowsTo-on_file (os 0) sort (nth_token 0 rest) s
GrowsTo-dispatch os show_book rest s = GrowsTo-on_file (os 0) show (nth_token 0 rest) s
GrowsTo-dispatch os list_book rest s = GrowsTo-on_file (os 0) list (nth_token 0 rest) s
GrowsTo-dispatch os list_page rest s =
    GrowsTo-page_command (os 0) (nth_token 0 rest) (nth_token 2 rest) (nth_token 4 rest) s
GrowsTo-dispatch os unknown rest s = Grows-same s.files s.files refl

GrowsTo-first_token :
    (os : ℕ → Os) (o : Option (Bytes × Bytes)) (s : Shell) → GrowsTo s.files (first_token os o s)
unfolding first_token
GrowsTo-first_token os none s = tt
GrowsTo-first_token os (some (token, rest)) s = GrowsTo-dispatch os (keyword token) rest s

GrowsTo-round : (os : ℕ → Os) (o : Option Bytes) (s : Shell) → GrowsTo s.files (round os o s)
unfolding round run_command
GrowsTo-round os none s = Grows-same s.files s.files refl
GrowsTo-round os (some bytes) s =
    GrowsTo-then s.files s'.files (first_token os (strtok quote command) s')
      (Grows-log (os 0) (input command) s) (GrowsTo-first_token os (strtok quote command) s')
  where
    command : Bytes
    command = c_string (without_last bytes)

    s' : Shell
    s' = log_file (os 0) (input command) s

-- Whatever lines the user types and whichever calls of the system fail, no run of the program removes
-- or overwrites what a file holds: where the run goes on or quits, each file is still there, with its
-- old content in front. What may follow a write past the array of students of sortAll is left out.
pub main-GrowsTo :
    (lines : List ((ℕ → Os) × Option Bytes)) (s : Shell) → GrowsTo s.files (main lines s)
unfolding main
main-GrowsTo [] s = Grows-same s.files s.files refl
main-GrowsTo ((os, bytes) ∷ more) s =
    GrowsTo-and_then s.files (round os bytes s) (main more) (GrowsTo-round os bytes s)
      (main-GrowsTo more)
