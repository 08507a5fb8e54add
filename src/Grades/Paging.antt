-- ===== src/Grades/Paging.antt =====
-- `showAll`, `listGrades` and `listSome` of HW1/src/main.c: they read a file in pieces of 35 bytes.
pub mod Flat
pub mod Pages
use gtu_cse344_system_progra.Base.{
  Bool, true, ℕ, zero, suc, ◌+◌, not, ◌&&◌, Option, none, some, [], ◌∷◌, ◌++◌, ◌==◌, ltb, length,
  take, drop, if◌then◌else◌,
}
use gtu_cse344_system_progra.Base.Int.{ℤ, pos, ◌-ℤ◌, ◌*ℤ◌, ltb_ℤ}
use gtu_cse344_system_progra.Grades.Shell.{
  Bytes, piece, open_failed, read_failed, all_listed, first_listed, page_listed, Shell, Os, Next,
  print, log_file, open_file, in_lister, goes_on, quits, fork_failed,
}

abbrev pub buffer_size : ℕ
buffer_size = 35

-- The loop of `showAll`. `fuel` bounds the rounds.
unfoldable pub show_pieces : ℕ → Bytes → Bytes
show_pieces zero rest = []
show_pieces (suc fuel) rest =
    let more = show_pieces fuel (drop buffer_size rest) in
    if length rest == 0 then [] else take buffer_size rest ++ more

unfoldable pub show_opened : Os → Bytes → Option Bytes → Shell → Shell
unfolding log_file show_pieces
show_opened os file none s = log_file os open_failed s
show_opened os file (some content) s =
    log_file os (all_listed file) (print (piece (show_pieces (suc (length content)) content)) s)

unfoldable pub show_all : Os → Bytes → Shell → Next
unfolding in_lister open_file show_opened
show_all os file s = in_lister os (λ c. show_opened os file (open_file os (some file) c) c) s

abbrev pub counted : ℕ → ℕ → ℕ
counted c line = if c == b'\n' then line + 1 else line

-- The loops of `listGrades` and `listSome`, which differ in two tests: `more` of `lineNumber`, by which
-- both loops go on, and `shown` of a character and `lineNumber` before it.
module _ (more : ℕ → Bool) (shown : ℕ → ℕ → Bool) where
  -- The inner loop, over a piece: what is printed, and `lineNumber` behind it.
  unfoldable pub print_piece : ℕ → Bytes → Bytes × ℕ
  print_piece line [] = ([], line)
  print_piece line (c ∷ rest) =
      let (out, last) = print_piece (counted c line) rest in
      if more line then (if shown c line then c ∷ out else out, last) else ([], line)

  -- The outer loop. `fuel` bounds the rounds.
  unfoldable pub print_pieces : ℕ → ℕ → Bytes → Bytes
  unfolding print_piece
  print_pieces zero line rest = []
  print_pieces (suc fuel) line rest =
      let (out, line') = print_piece line (take buffer_size rest) in
      let others = print_pieces fuel line' (drop buffer_size rest) in
      if not (length rest == 0) && more line then out ++ others else []

-- `listGrades` prints each character, and counts its newline then; `listSome` counts it first.
abbrev pub first_part : Bytes → Bytes
first_part content =
    print_pieces (λ line. ltb line 5) (λ c line. true) (suc (length content)) 0 content

abbrev pub page_part : ℤ → ℤ → Bytes → Bytes
page_part entries page content =
    print_pieces (λ line. ltb_ℤ (pos line) (entries *ℤ page))
      (λ c line. not (ltb_ℤ (pos (counted c line)) (entries *ℤ page -ℤ entries)))
      (suc (length content)) 0 content

-- `bytes_read` is -1 behind the loop only where the loop has ended by it.
unfoldable pub list_opened : Os → Bytes → Option Bytes → Shell → Shell
unfolding log_file print_pieces
list_opened os file none s = log_file os open_failed s
list_opened os file (some content) s =
    log_file os (if os.read_all then first_listed file else read_failed)
      (print (piece (first_part content)) s)

unfoldable pub list_grades : Os → Bytes → Shell → Next
unfolding in_lister open_file list_opened
list_grades os file s = in_lister os (λ c. list_opened os file (open_file os (some file) c) c) s

unfoldable pub some_opened : Os → ℤ → ℤ → Bytes → Option Bytes → Shell → Shell
unfolding log_file print_pieces ◌*ℤ◌ ◌-ℤ◌
some_opened os entries page file none s = log_file os open_failed s
some_opened os entries page file (some content) s =
    log_file os (if os.read_all then page_listed entries page file else read_failed)
      (print (piece (page_part entries page content)) s)

-- A failed `waitpid` is not logged here.
unfoldable pub list_some : Os → ℤ → ℤ → Bytes → Shell → Next
unfolding log_file open_file some_opened
list_some os entries page file s =
    let child = some_opened os entries page file (open_file os (some file) s) s in
    if not os.fork
    then goes_on (log_file os fork_failed s)
    else if not os.wait
    then quits child
    else goes_on child
