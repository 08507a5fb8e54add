-- ===== src/Server/Client/Killed.antt =====
-- `kill_child` of Midterm/src/client.c, the handler of SIGINT and SIGTSTP. It does not exit by
-- itself: the loop goes on behind it.
use gtu_cse344_system_progra.Base.{
  ◌≡◌, refl, Bool, false, not, List, [], ◌∷◌, ◌||◌, ◌++◌, Option, none, some, if◌then◌else◌, arith,
}
use gtu_cse344_system_progra.Base.Strings.{codes, c_string}
use gtu_cse344_system_progra.Server.Client.{
  Bytes, Client, Next, goes_on, ends, Round, unlink, show_pieces, strip, answer_round, send_round,
  line_round, round, and_then, loop,
}

-- What the calls of the handler return: `stat` of the server's FIFO, and the open of the client's and
-- the write to it.
pub record Calls : Type 0 where
  pub server_there : Bool
  pub open_fifo : Bool
  pub write : Bool

-- `quit` goes without its byte 0.
unfoldable pub kill_child : Calls → Client → Next
kill_child k c =
    if not k.server_there
    then goes_on (unlink c)
    else if not k.open_fifo || not k.write
    then ends false (unlink c)
    else goes_on (unlink (record c { sent = codes "quit" ∷ c.sent }))

-- The client has no FIFO, whether it goes on or has ended.
abbrev pub HasNoFifo : Next → Type 0
HasNoFifo (goes_on c) = c.has_fifo ≡ false
HasNoFifo (ends status c) = c.has_fifo ≡ false

kill_child-HasNoFifo : (k : Calls) (c : Client) → HasNoFifo (kill_child k c)
unfolding kill_child
kill_child-HasNoFifo k c = ground arith

show_pieces-has_fifo : (ps : List Bytes) (c : Client) → (show_pieces ps c).has_fifo ≡ c.has_fifo
unfolding show_pieces
show_pieces-has_fifo [] c = refl
show_pieces-has_fifo (p ∷ ps) c =
    show_pieces-has_fifo ps (record c { shown = c_string p ∷ c.shown })

line_round-HasNoFifo :
    (r : Round) (line : Option Bytes) (c : Client)
    → c.has_fifo ≡ false
    → HasNoFifo (line_round r line c)
unfolding line_round send_round answer_round
line_round-HasNoFifo r none c h = h
line_round-HasNoFifo r (some line) c h =
    ground
      (arith, show_pieces-has_fifo r.pieces (record c { sent = (strip line ++ (0 ∷ [])) ∷ c.sent }))

round-HasNoFifo : (r : Round) (c : Client) → c.has_fifo ≡ false → HasNoFifo (round r c)
unfolding round
round-HasNoFifo r c h = ground (arith, line_round-HasNoFifo r r.line c h)

and_then-HasNoFifo :
    (n : Next) (more : Client → Next)
    → HasNoFifo n
    → ((c : Client) → c.has_fifo ≡ false → HasNoFifo (more c))
    → HasNoFifo (and_then n more)
and_then-HasNoFifo (goes_on c) more h k = k c h
and_then-HasNoFifo (ends status c) more h k = h

loop-HasNoFifo : (rs : List Round) (c : Client) → c.has_fifo ≡ false → HasNoFifo (loop rs c)
unfolding loop
loop-HasNoFifo [] c h = h
loop-HasNoFifo (r ∷ rs) c h =
    and_then-HasNoFifo (round r c) (loop rs) (round-HasNoFifo r c h) (λ d. loop-HasNoFifo rs d)

-- A client that is killed leaves no FIFO behind, whichever of the handler's calls fail and however
-- its loop goes on behind the handler, the end of its input included.
pub killed-HasNoFifo :
    (k : Calls) (rs : List Round) (c : Client) → HasNoFifo (and_then (kill_child k c) (loop rs))
killed-HasNoFifo k rs c =
    and_then-HasNoFifo (kill_child k c) (loop rs) (kill_child-HasNoFifo k c) (loop-HasNoFifo rs)
