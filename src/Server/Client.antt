-- ===== src/Server/Client.antt =====
-- `main` of Midterm/src/client.c: the client makes a FIFO of its own, asks the server for a place, and
-- then sends a command a line.
pub mod Cleanup
pub mod Killed
mod Tests
use gtu_cse344_system_progra.Base.{
  ℕ, ◌+◌, Bool, true, false, not, ◌&&◌, ◌||◌, Option, none, some, List, [], ◌∷◌, ◌++◌, ◌==◌,
  if◌then◌else◌,
}
use gtu_cse344_system_progra.Base.Strings.{same_name, c_string, codes}

abbrev pub Bytes : Type 0
Bytes = List ℕ

-- Whether the client's FIFO is there, and what was sent to it and printed from it, the last first.
pub record Client : Type 0 where
  pub has_fifo : Bool
  pub sent : List Bytes
  pub shown : List Bytes

pub data Next : Type 0 where
  goes_on : Client → Next
  ends : Bool → Client → Next  -- true: success

-- What the calls in front of the loop return. `full` is what the server answers to `tryConnect`, none
-- where the read fails.
pub record Setup : Type 0 where
  pub arguments : ℕ
  pub connection_type : Bytes
  pub make_fifo : Bool
  pub open_server : Bool
  pub write_server : Bool
  pub open_answer : Bool
  pub full : Option ℕ

-- What the calls of a round of the loop return: the two `stat` of the server's FIFO, `fgets`, the calls
-- on the client's own FIFO, and the pieces that are read. A line has no byte 0.
pub record Round : Type 0 where
  pub server_there : Bool
  pub line : Option Bytes
  pub server_still : Bool
  pub open_write : Bool
  pub write : Bool
  pub open_read : Bool
  pub pieces : List Bytes

abbrev pub unlink : Client → Client
unlink c = record c { has_fifo = false }

abbrev pub answered : Option ℕ → Client → Next
answered none c = ends false (unlink c)
answered (some full) c = if full == 1 then ends false (unlink c) else goes_on c

unfoldable pub try_connect : Setup → Client → Next
unfolding same_name
try_connect setup c =
    if not (same_name setup.connection_type (codes "tryConnect"))
    then goes_on c
    else if not setup.open_answer
    then ends false (unlink c)
    else answered setup.full c

unfoldable pub connect : Setup → Client → Next
unfolding same_name try_connect
connect setup c =
    if not (setup.arguments == 3)
      || not (same_name setup.connection_type (codes "Connect"))
        && not (same_name setup.connection_type (codes "tryConnect"))
    then ends false c
    else if not setup.make_fifo
    then ends false c
    else if not setup.open_server
    then ends false (unlink (record c { has_fifo = true }))
    else if not setup.write_server
    then ends false (unlink (record c { has_fifo = true }))
    else try_connect setup (record c { has_fifo = true })

-- The command without its newline.
unfoldable pub strip : Bytes → Bytes
strip [] = []
strip (c ∷ []) = if c == b'\n' then [] else c ∷ []
strip (c ∷ d ∷ s) = c ∷ strip (d ∷ s)

unfoldable pub show_pieces : List Bytes → Client → Client
unfolding c_string
show_pieces [] c = c
show_pieces (p ∷ ps) c = show_pieces ps (record c { shown = c_string p ∷ c.shown })

-- A read that fails ends the printing, and the loop goes on.
unfoldable pub answer_round : Round → Client → Next
unfolding show_pieces
answer_round r c =
    if not r.open_read then ends false (unlink c) else goes_on (show_pieces r.pieces c)

unfoldable pub send_round : Round → Bytes → Client → Next
unfolding same_name answer_round
send_round r command c =
    if not r.open_write
    then ends false (unlink c)
    else if not r.write
    then ends false (unlink c)
    else let c' = record c { sent = (command ++ (0 ∷ [])) ∷ c.sent } in
      if same_name command (codes "quit") then ends true (unlink c') else answer_round r c'

-- Behind `fgets`.
unfoldable pub line_round : Round → Option Bytes → Client → Next
unfolding strip send_round
line_round r none c = ends false c
line_round r (some line) c =
    if not r.server_still then ends true (unlink c) else send_round r (strip line) c

unfoldable pub round : Round → Client → Next
unfolding line_round
round r c = if not r.server_there then ends true (unlink c) else line_round r r.line c

abbrev pub and_then : Next → (Client → Next) → Next
and_then (goes_on c) more = more c
and_then (ends status c) more = ends status c

unfoldable pub loop : List Round → Client → Next
unfolding round
loop [] c = goes_on c
loop (r ∷ rs) c = and_then (round r c) (loop rs)

abbrev pub no_client : Client
no_client = record { has_fifo = false; sent = []; shown = [] }

unfoldable pub client_main : Setup → List Round → Next
unfolding connect loop
client_main setup rs = and_then (connect setup no_client) (loop rs)
