-- ===== src/Server/Request/Command.antt =====
-- The loop of `request` in Midterm/src/server.c: it reads a command line from the client's FIFO, and
-- hands it with its tokens to a command. The `quit` of a client that is killed comes without a byte 0,
-- and is not modelled: the bytes that are read hold one.
pub mod Line
use gtu_cse344_system_progra.Base.{
  ℕ, Bool, true, false, not, Option, none, some, List, [], ◌∷◌, if◌then◌else◌,
}
use gtu_cse344_system_progra.Base.Int.{ℤ}
use gtu_cse344_system_progra.Base.Strings.{same_name, c_string, codes, strtok}
use gtu_cse344_system_progra.Server.Sync.Table.{Name}
use gtu_cse344_system_progra.Server.Request.World.{
  Bytes, Dir, text, World, Os, Outcome, continues, ended, ◌>>=◌, respond,
}
use gtu_cse344_system_progra.Server.Request.Info.{
  Topic, general, read_f, write_t, upload, download, arch_server, kill_server, help, list_files,
  kill_server_command, invalid_command,
}
use gtu_cse344_system_progra.Server.Request.Read
use gtu_cse344_system_progra.Server.Request.Write
use gtu_cse344_system_progra.Server.Request.Transfer

-- The first word of a line, and with it a topic of `help`.
pub data Keyword : Type 0 where
  asks_help : Topic → Keyword
  lists quits kills reads writes uploads downloads archives unknown : Keyword

-- What one round meets: the calls, what `readdir` gives, `atoi` and `tar`, and what stands in arrays
-- that nothing has been written to.
pub record Turn : Type 0 where
  pub open_read : Bool
  pub line : Option Bytes  -- none where the read fails
  pub os : Os
  pub entries : List Name
  pub atoi : Name → ℤ
  pub atoi_digits : Name → ℕ
  pub archive : Dir → Bytes
  pub stale_name : Name
  pub stale_text : Bytes

-- `strtok_r(rest, " ", &rest)`
unfoldable pub next_token : Bytes → Option Name × Bytes
unfolding strtok
next_token s = elim (strtok b' ' s) [ none ↦ (none, []) | some (token, rest) ↦ (some token, rest) ]

-- `strtok_r(NULL, "", &rest)`
abbrev pub all_left : Bytes → Option Bytes
all_left [] = none
all_left (c ∷ s) = some (c ∷ s)

unfoldable pub command_name : Name → Keyword
unfolding same_name
command_name token =
    if same_name token (codes "readF")
    then reads
    else if same_name token (codes "writeT")
    then writes
    else if same_name token (codes "upload")
    then uploads
    else if same_name token (codes "download")
    then downloads
    else if same_name token (codes "archServer")
    then archives
    else unknown

abbrev pub name_or_invalid : Option Name → Name
name_or_invalid none = codes "invalid"
name_or_invalid (some token) = token

-- The keyword of a line, and what is left for further tokens.
unfoldable pub keyword : Bytes → Keyword × Bytes
unfolding same_name next_token command_name
keyword command =
    if same_name command (codes "help")
    then (asks_help general, [])
    else if same_name command (codes "help readF")
    then (asks_help read_f, [])
    else if same_name command (codes "help writeT")
    then (asks_help write_t, [])
    else if same_name command (codes "help upload")
    then (asks_help upload, [])
    else if same_name command (codes "help download")
    then (asks_help download, [])
    else if same_name command (codes "help archServer")
    then (asks_help arch_server, [])
    else if same_name command (codes "help killServer")
    then (asks_help kill_server, [])
    else if same_name command (codes "list")
    then (lists, [])
    else if same_name command (codes "quit")
    then (quits, [])
    else if same_name command (codes "killServer")
    then (kills, [])
    else (command_name (name_or_invalid (next_token command).0), (next_token command).1)

unfoldable pub perform : Turn → Keyword → Bytes → World → Outcome
unfolding help list_files kill_server_command invalid_command next_token Read.read_f Write.write_t
    Transfer.upload Transfer.download Transfer.arch_server
perform t (asks_help topic) rest w = help t.os topic w
perform t lists rest w = list_files t.os t.entries w
perform t quits rest w = ended w
perform t kills rest w = kill_server_command t.os w
perform t reads rest w =
    let (file, more) = next_token rest in
    Read.read_f t.atoi t.stale_name t.os file (next_token more).0 w
perform t writes rest w =
    let (file, more) = next_token rest in
    let (line_token, left) = next_token more in
    Write.write_t t.atoi_digits t.stale_text t.os file line_token (all_left left) left w
perform t uploads rest w = Transfer.upload t.os (next_token rest).0 w
perform t downloads rest w = Transfer.download t.os (next_token rest).0 w
perform t archives rest w = Transfer.arch_server t.archive t.os (next_token rest).0 w
perform t unknown rest w = invalid_command t.os w

unfoldable pub read_round : Turn → Option Bytes → World → Outcome
unfolding perform keyword c_string
read_round t none w = respond t.os (text "Error reading command from client FIFO.\n") w
read_round t (some bytes) w = let (k, rest) = keyword (c_string bytes) in perform t k rest w

unfoldable pub request_round : Turn → World → Outcome
unfolding read_round
request_round t w = if not t.open_read then ended w else read_round t t.line w

unfoldable pub request : List Turn → World → Outcome
unfolding request_round
request [] w = continues w
request (t ∷ ts) w = request_round t w >>= request ts
