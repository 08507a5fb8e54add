-- ===== src/Server/Request/Read.antt =====
-- The command readF of `request` in Midterm/src/server.c.
pub mod Lines
pub mod Whole
pub mod Locks
use gtu_cse344_system_progra.Base.{
  ℕ, zero, suc, ◌+◌, ◌<◌, Bool, true, false, not, ◌&&◌, ◌||◌, Option, some, none, List, [], ◌∷◌,
  ◌++◌, ◌==◌, ltb, leb, take, drop, length, if◌then◌else◌,
}
use gtu_cse344_system_progra.Base.Int.{ℤ, pos, negsuc, ltb_ℤ}
use gtu_cse344_system_progra.Server.Sync.Table.{Name}
use gtu_cse344_system_progra.Server.Request.World.{
  Bytes, Reply, text, contents, LockCall, reader_enter, reader_exit, World, Os, Outcome, continues,
  ended, ◌>>=◌, find, log, respond, send, unlink_fifo, with_lock,
}

-- `line_number == n`, and `line_number == -1`.
abbrev pub is_line : ℤ → ℕ → Bool
is_line (pos m) n = m == n
is_line (negsuc m) n = false

abbrev pub is_whole : ℤ → Bool
is_whole (pos m) = false
is_whole (negsuc m) = m == 0

-- What the loop that sends the whole file comes to.
pub data Sending : Type 0 where
  all_sent read_failed write_failed : World → Sending

-- The loop from its round `k`, over the bytes that are left; `read` gives 4096 bytes or what is
-- left. `fuel` is a bound on the rounds.
unfoldable pub send_chunks : Os → ℕ → ℕ → Bytes → World → Sending
send_chunks os zero k rest w = all_sent w
send_chunks os (suc fuel) k rest w =
    let more = send_chunks os fuel (k + 1) (drop 4096 rest) (send (contents (take 4096 rest)) w) in
    if not (os.read_chunk k)
    then read_failed w
    else if length rest == 0
    then all_sent w
    else if not (os.write_chunk k)
    then write_failed w
    else more

-- The FIFO is opened a second time, for the error.
abbrev again : Os → Os
again os = record os { open_fifo = os.open_again; write_fifo = os.write_again }

unfoldable pub after_sending : Os → ℕ → Sending → Outcome
after_sending os k (all_sent w) = continues (log (reader_exit k) w)
after_sending os k (write_failed w) = ended (unlink_fifo w)
after_sending os k (read_failed w) =
    respond (again os) (text "Error reading from file.\n") w >>= λ w'.
    continues (log (reader_exit k) w')

-- The branch without a line number.
unfoldable pub send_file : Os → ℕ → Bytes → World → Outcome
unfolding send_chunks after_sending
send_file os k content w = after_sending os k (send_chunks os (suc (length content)) 0 content w)

-- The search for a line, with `line` the bytes before the next one: the line with its newline, or
-- the number that `current_line` has at the end of the file.
-- The array of that name has 4096 bytes, and a longer line overruns it: the search is that of files
-- with shorter lines.
pub data Search : Type 0 where
  hit : Bytes → Search
  end_at : ℕ → Search

unfoldable pub find_line : ℤ → ℕ → Bytes → Bytes → Search
find_line target current line [] = end_at current
find_line target current line (ch ∷ rest) = elim (ch == b'\n') [
  | true ↦ elim (is_line target current) [
    | true ↦ hit (line ++ (ch ∷ []))
    | false ↦ find_line target (current + 1) [] rest
  ]
  | false ↦ find_line target current (line ++ (ch ∷ [])) rest
]

-- The last lines of the branch, which both ends of the search reach.
close_line : ℕ → World → Outcome
close_line k w = continues (log (reader_exit k) w)

unfoldable pub after_search : Os → ℕ → ℤ → Search → World → Outcome
unfolding close_line
after_search os k target (hit line) w =
    if not (os.write_chunk 0)
    then ended (unlink_fifo w)
    else close_line k (log (reader_exit k) (send (contents line) w))
after_search os k target (end_at current) w =
    if ltb_ℤ (pos current) target || ltb_ℤ target (pos 1)
    then if not os.write_fifo
      then ended (unlink_fifo w)
      else close_line k (send (text "Line number exceeds the number of lines in the file.\n") w)
    else close_line k w

-- The branch with a line number.
unfoldable pub send_line : Os → ℕ → ℤ → Bytes → World → Outcome
unfolding find_line after_search
send_line os k target content w = after_search os k target (find_line target 1 [] content) w

-- The file is open, or could not be opened. `valid` says that a file name was given.
unfoldable pub read_opened : Os → Bool → ℤ → ℕ → Option Bytes → World → Outcome
unfolding send_file send_line
read_opened os valid line_number k none w =
    respond os (text "Error opening file to read\n") w >>= λ w'. continues (log (reader_exit k) w')
read_opened os valid line_number k (some content) w =
    if not os.open_fifo
    then ended w
    else if not valid
    then (respond os (text "Invalid command format for readF\n") w >>= λ w'.
        continues (log (reader_exit k) w'))
    else if is_whole line_number
    then send_file os k content w
    else send_line os k line_number content w

-- What `open` makes of a file name.
abbrev pub opened : Bool → Option Bytes → Option Bytes
opened true c = c
opened false c = none

unfoldable pub read_locked : Os → Bool → Name → ℤ → ℕ → World → Outcome
unfolding read_opened
read_locked os valid file line_number k w =
    read_opened os valid line_number k (opened os.open_file (find file w.client_dir))
      (log (reader_enter k) w)

-- `line_number` as the parsing leaves it: 0 and no token mean the whole file.
unfoldable pub parse_line : (Name → ℤ) → Option Name → ℤ
parse_line atoi none = negsuc 0
parse_line atoi (some t) = if is_line (atoi t) 0 then negsuc 0 else atoi t

-- `file_token` and `line_token` are the tokens that `strtok_r` finds, `stale` is what the buffer
-- `file_name` holds if no name is given, and `atoi` is that function of the C library.
unfoldable pub read_f : (Name → ℤ) → Name → Os → Option Name → Option Name → World → Outcome
unfolding read_locked parse_line
read_f atoi stale os none line_token w =
    with_lock os stale (read_locked os false stale (negsuc 0)) w
read_f atoi stale os (some file) line_token w =
    with_lock os file (read_locked os true file (parse_line atoi line_token)) w
