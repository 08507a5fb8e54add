-- ===== src/Server/Request/Write.antt =====
-- The command writeT of `request` in Midterm/src/server.c.
pub mod Lines
pub mod Stores
use gtu_cse344_system_progra.Base.{
  ℕ, ◌+◌, ◌-◌, Bool, true, false, not, ◌||◌, Option, some, none, List, [], ◌∷◌, ◌++◌, ◌==◌, leb,
  ◌&&◌, if◌then◌else◌,
}
use gtu_cse344_system_progra.Server.Request.Read.{opened}
use gtu_cse344_system_progra.Server.Sync.Table.{Name}
use gtu_cse344_system_progra.Server.Request.World.{
  Bytes, text, reader_enter, ended, reader_exit, writer_enter, writer_exit, World, Os, Outcome,
  continues, ◌>>=◌, find, put, with_lock, log, respond, respond_keep,
}

-- `buffer` in `fgets(buffer, sizeof(buffer), file)` has room for this many bytes and the final 0.
abbrev pub fgets_room : ℕ
fgets_room = 4095

-- What is in the buffer at the end of the file: nothing makes `fgets` return NULL.
unfoldable pub last_piece : Bytes → List Bytes
last_piece [] = []
last_piece (c ∷ line) = (c ∷ line) ∷ []

-- What the calls of `fgets` give one after the other: a piece ends behind a newline, or when the
-- buffer is full. `room` is what is left of the buffer, and `line` what is in it.
unfoldable pub fgets_all : ℕ → Bytes → Bytes → List Bytes
unfolding last_piece
fgets_all room line [] = last_piece line
fgets_all room line (ch ∷ rest) = elim (ch == b'\n' || leb room 1) [
  | true ↦ (line ++ (ch ∷ [])) ∷ fgets_all fgets_room [] rest
  | false ↦ fgets_all (room - 1) (line ++ (ch ∷ [])) rest
]

unfoldable pub read_pieces : Bytes → List Bytes
unfolding fgets_all
read_pieces content = fgets_all fgets_room [] content

-- `fputs` writes a piece up to its first byte 0.
unfoldable pub fputs : Bytes → Bytes
fputs [] = []
fputs (c ∷ s) = elim (c == 0) [ true ↦ [] | false ↦ c ∷ fputs s ]

-- The loop that fills the temporary file, `current` lines read: its content, and `placed`.
unfoldable pub fill_temp : ℕ → Bytes → ℕ → List Bytes → Bytes × Bool
unfolding fputs
fill_temp line_number str current [] = ([], false)
fill_temp line_number str current (buffer ∷ rest) =
    let (temp, placed) = fill_temp line_number str (current + 1) rest in
    if line_number == current + 1
    then (str ++ (b'\n' ∷ []) ++ temp, true)
    else (fputs buffer ++ temp, placed)

-- The loop that copies the temporary file back.
unfoldable pub copy_back : List Bytes → Bytes
unfolding fputs
copy_back [] = []
copy_back (buffer ∷ rest) = fputs buffer ++ copy_back rest

-- Without a line number: append the string and a newline, making the file if it is not there.
unfoldable pub append_text : Bytes → Option Bytes → Bytes
append_text str none = str
append_text str (some c) = c ++ str

unfoldable pub exit_writer : ℕ → World → Outcome
exit_writer k w = continues (log (writer_exit k) w)

unfoldable pub exit_reader : ℕ → World → Outcome
exit_reader k w = continues (log (reader_exit k) w)

abbrev pub with_file : Name → Bytes → World → World
with_file file b w = record w { client_dir = put file b w.client_dir }

-- Whether `open` with O_CREAT gives the file.
abbrev pub creatable : Os → Option Bytes → Bool
creatable os none = os.create_file
creatable os (some c) = os.open_file

unfoldable pub append_locked : Os → Name → Bytes → ℕ → World → Outcome
unfolding exit_writer append_text
append_locked os file str k w0 =
    let w = log (writer_enter k) w0 in
    let old = find file w0.client_dir in
    let made = with_file file (append_text [] old) w in
    let grown = with_file file (append_text str old) w in
    let done = with_file file (append_text (str ++ (b'\n' ∷ [])) old) w in
    if not (creatable os old)
    then (respond_keep os (text "Error opening file to write.\n") w >>= exit_writer k)
    else if not os.write_file
    then (respond_keep os (text "Error writing string into the file.\n") made >>= exit_writer k)
    else if not os.write_newline
    then (respond os (text "Error writing string into the file.\n") grown >>= exit_writer k)
    else respond os (text "Succesfully written into the file.\n") (log (writer_exit k) done)

-- With a line number, behind the reading loop; `temp` is the temporary file.
unfoldable pub replace_placed : Os → Name → ℕ → Bytes × Bool → World → Outcome
unfolding exit_writer copy_back read_pieces
replace_placed os file k (temp, false) w =
    respond os (text "Line number exceeds the number of lines in the file.\n") w
replace_placed os file k (temp, true) w0 =
    let w = log (writer_enter k) w0 in
    if not os.create_file
    then (respond os (text "Error opening file to write.\n") w >>= exit_writer k)
    else respond os (text "Succesfully written into the file.\n")
        (log (writer_exit k) (with_file file (copy_back (read_pieces temp)) w))

-- `str` is none where the command has no string: the first `fputs` of it ends the process.
unfoldable pub replace_filled : Os → Name → ℕ → Option Bytes → Bytes × Bool → World → Outcome
unfolding replace_placed exit_reader
replace_filled os file k none (temp, true) w = ended w
replace_filled os file k none (temp, false) w =
    replace_placed os file k (temp, false) (log (reader_exit k) w)
replace_filled os file k (some str) r w = replace_placed os file k r (log (reader_exit k) w)

abbrev pub string_or_nil : Option Bytes → Bytes
string_or_nil none = []
string_or_nil (some str) = str

unfoldable pub replace_opened : Os → Name → ℕ → Option Bytes → ℕ → Option Bytes → World → Outcome
unfolding exit_reader replace_filled fill_temp read_pieces
replace_opened os file line_number str k none w =
    respond os (text "Error opening file to write.\n") w >>= exit_reader k
replace_opened os file line_number str k (some content) w =
    if not os.tmpfile
    then respond os (text "Error opening file to write.\n") w
    else replace_filled os file k str
        (fill_temp line_number (string_or_nil str) 0 (read_pieces content)) w

unfoldable pub replace_locked : Os → Name → ℕ → Option Bytes → ℕ → World → Outcome
unfolding replace_opened
replace_locked os file line_number str k w =
    replace_opened os file line_number str k (opened os.open_file (find file w.client_dir))
      (log (reader_enter k) w)

-- What the arguments ask for: the string to append, or the line to replace and its string.
pub data Target : Type 0 where
  append : Bytes → Target
  replace : ℕ → Option Bytes → Target

-- `isdigit` of every byte of the token.
unfoldable pub all_digits : Name → Bool
all_digits [] = true
all_digits (c ∷ t) = (leb b'0' c && leb c b'9') && all_digits t

-- `str` where it holds anything, and the rest of the command where it does not.
abbrev pub str_or_rest : Bytes → Bytes → Bytes
str_or_rest [] rest = rest
str_or_rest (c ∷ str) rest = c ∷ str

-- `stale` is what the buffer `str` holds at first, up to its first 0; `next_token` is what
-- `strtok_r` gives of the command behind `line_token`, and `rest` where it has got to.
unfoldable pub parse_target : (Name → ℕ) → Bytes → Option Name → Option Bytes → Bytes → Target
unfolding all_digits
parse_target atoi stale none next_token rest = append (str_or_rest stale rest)
parse_target atoi stale (some t) next_token rest =
    if all_digits t
    then if atoi t == 0 then append (str_or_rest stale rest) else replace (atoi t) next_token
    else append (t ++ (b' ' ∷ []) ++ string_or_nil next_token)

unfoldable pub write_target : Os → Name → Target → World → Outcome
unfolding append_locked replace_locked
write_target os file (append str) w = with_lock os file (append_locked os file str) w
write_target os file (replace n str) w = with_lock os file (replace_locked os file n str) w

unfoldable pub write_t :
    (Name → ℕ) → Bytes → Os → Option Name → Option Name → Option Bytes → Bytes → World → Outcome
unfolding write_target parse_target
write_t atoi stale os none line_token next_token rest w =
    respond_keep os (text "Invalid file name.\n") w
write_t atoi stale os (some file) line_token next_token rest w =
    write_target os file (parse_target atoi stale line_token next_token rest) w
