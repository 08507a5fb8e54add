-- ===== src/Server/Request/Brackets/Session.antt =====
-- The calls on locks of a session with `request` in Midterm/src/server.c.
use gtu_cse344_system_progra.Server.Request.Balance.{respond-locks}
use gtu_cse344_system_progra.Base.{
  ◌≡◌, inl, inr, ap, sym, if-cases, not, refl, true, Option, some, none, List, [], ◌∷◌, arith,
}
use gtu_cse344_system_progra.Base.Strings.{c_string}
use gtu_cse344_system_progra.Server.Request.World.{
  Bytes, text, LockCall, World, Os, Outcome, continues, ended, ◌>>=◌, respond,
}
use gtu_cse344_system_progra.Server.Request.Info.{
  help_text, help, list_files, kill_server_command-locks, invalid_command,
}
use gtu_cse344_system_progra.Server.Request.Read.{is_whole, parse_line}
use gtu_cse344_system_progra.Server.Request.Command.{
  Keyword, asks_help, lists, quits, kills, reads, writes, uploads, downloads, archives, unknown,
  Turn, next_token, all_left, keyword, perform, read_round, request_round, request,
}
use gtu_cse344_system_progra.Server.Request.Brackets.{
  Bracketed, Bracketed-trans, same_as, respond_keep-locks, read_f-Bracketed,
}
use gtu_cse344_system_progra.Server.Request.Brackets.Commands.{
  upload-Bracketed, download-Bracketed, write_t-Bracketed, arch_server-locks,
}

-- A readF asks for the whole file, and a writeT can make its temporary file.
abbrev pub Fair : Turn → Keyword → Bytes → Type 0
Fair t reads rest = is_whole (parse_line t.atoi (next_token (next_token rest).1).0) ≡ true
Fair t writes rest = t.os.tmpfile ≡ true
Fair t (asks_help topic) rest = Unit
Fair t lists rest = Unit
Fair t quits rest = Unit
Fair t kills rest = Unit
Fair t uploads rest = Unit
Fair t downloads rest = Unit
Fair t archives rest = Unit
Fair t unknown rest = Unit

abbrev pub FairLine : Turn → Option Bytes → Type 0
FairLine t none = Unit
FairLine t (some bytes) = Fair t (keyword (c_string bytes)).0 (keyword (c_string bytes)).1

abbrev pub AllFair : List Turn → Type 0
AllFair [] = Unit
AllFair (t ∷ ts) = FairLine t t.line × AllFair ts

list_files-locks :
    (os : Os) (entries : List Bytes) (w : World) {w' : World}
    → list_files os entries w ≡ continues w'
    → w'.locks ≡ w.locks
unfolding list_files respond
list_files-locks os entries w h = ground arith

perform-Bracketed :
    (t : Turn) (k : Keyword) (rest : Bytes) (w : World) {w' : World}
    → Fair t k rest
    → perform t k rest w ≡ continues w'
    → Bracketed w.locks w'.locks
unfolding perform help invalid_command
perform-Bracketed t (asks_help topic) rest w f h =
    same_as (respond-locks t.os (text (help_text topic)) w h)
perform-Bracketed t lists rest w f h = same_as (list_files-locks t.os t.entries w h)
perform-Bracketed t quits rest w f h = ground arith
perform-Bracketed t kills rest w f h = same_as (kill_server_command-locks t.os w h)
perform-Bracketed t reads rest w f h =
    read_f-Bracketed t.atoi t.stale_name t.os (next_token rest).0 (next_token (next_token rest).1).0
      w f h
perform-Bracketed t writes rest w f h =
    let left = (next_token (next_token rest).1).1 in
    write_t-Bracketed t.atoi_digits t.stale_text t.os (next_token rest).0
      (next_token (next_token rest).1).0 (all_left left) left w f h
perform-Bracketed t uploads rest w f h = upload-Bracketed t.os (next_token rest).0 w h
perform-Bracketed t downloads rest w f h = download-Bracketed t.os (next_token rest).0 w h
perform-Bracketed t archives rest w f h =
    same_as (arch_server-locks t.archive t.os (next_token rest).0 w h)
perform-Bracketed t unknown rest w f h =
    same_as (respond_keep-locks t.os (text "\ninvalid command\n") w h)

read_round-Bracketed :
    (t : Turn) (line : Option Bytes) (w : World) {w' : World}
    → FairLine t line
    → read_round t line w ≡ continues w'
    → Bracketed w.locks w'.locks
unfolding read_round
read_round-Bracketed t none w f h =
    same_as (respond-locks t.os (text "Error reading command from client FIFO.\n") w h)
read_round-Bracketed t (some bytes) w f h =
    perform-Bracketed t (keyword (c_string bytes)).0 (keyword (c_string bytes)).1 w f h

request_round-Bracketed :
    (t : Turn) (w : World) {w' : World}
    → FairLine t t.line
    → request_round t w ≡ continues w'
    → Bracketed w.locks w'.locks
unfolding request_round
request_round-Bracketed t w f h = elim (if-cases (not t.open_read) h) [
  | inl (e, g) ↦ ground arith
  | inr (e, g) ↦ read_round-Bracketed t t.line w f g
]

then-continues :
    (o : Outcome) (more : World → Outcome) {w' : World}
    → (o >>= more) ≡ continues w'
    → (v : World) × (o ≡ continues v) × (more v ≡ continues w')
then-continues (continues v) more h = (v, refl, h)
then-continues (ended v) more h = ground arith

abbrev locks_of : Outcome → List LockCall
locks_of (continues w) = w.locks
locks_of (ended w) = w.locks

-- Whatever commands a client sends and whichever calls fail on the way, when the process of the
-- client is still there it holds no lock: since the session began it has called the functions of
-- `sync.c` in pairs, an enter and at once the exit of the same kind on the same entry. This is for
-- sessions in which each readF asks for a whole file and each writeT can make its temporary file.
pub request-Bracketed :
    (ts : List Turn) (w : World) {w' : World}
    → AllFair ts
    → request ts w ≡ continues w'
    → Bracketed w.locks w'.locks
unfolding request
request-Bracketed [] w f h = same_as (ap locks_of (sym h))
request-Bracketed (t ∷ ts) w (f, fs) h =
    let (v, e, g) = then-continues (request_round t w) (request ts) h in
    Bracketed-trans (request_round-Bracketed t w f e) (request-Bracketed ts v fs g)
