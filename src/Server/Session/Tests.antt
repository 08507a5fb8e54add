-- ===== src/Server/Session/Tests.antt =====
-- A client that uploads a file and quits.
use gtu_cse344_system_progra.Base.{arith}
use gtu_cse344_system_progra.Server.Session.{
  Entry, well, commands, sent_by, rev_onto, feed, obey, AreTyped, fresh, session_obeyed,
}
use gtu_cse344_system_progra.Server.Client.{loop}
use gtu_cse344_system_progra.Server.Request.World.{
  Bytes, World, Outcome, continues, ended, respond, find, with_lock,
}
use gtu_cse344_system_progra.Server.Request.Command.{
  Turn, request, request_round, read_round, keyword, command_name, perform, next_token,
}
use gtu_cse344_system_progra.Server.Request.Tests.{rest, world, upload_turn}
use gtu_cse344_system_progra.Base.Strings.{
  codes, same_name, strtok, skip, some_token, cut, c_string,
}
use gtu_cse344_system_progra.Base.{◌≡◌, refl, List, [], ◌∷◌, map}
use gtu_cse344_system_progra.Server.Sync.Table.{
  find_or_add, find_or_add_with, get_file, get_file_from, init_file,
}
use gtu_cse344_system_progra.Server.Request.Transfer.{upload, upload_locked, upload_opened}
use gtu_cse344_system_progra.Server.Request.Brackets.{Bracketed}
use gtu_cse344_system_progra.Server.Request.Brackets.Session.{request-Bracketed}

-- The client types a command and then quits; the line behind that is not sent.
abbrev entries : List Entry
entries = (codes "upload n", codes "done" ∷ []) ∷ (codes "quit", []) ∷ (codes "list", []) ∷ []

abbrev turns : List (Turn × Bytes)
turns = (upload_turn, rest) ∷ (upload_turn, []) ∷ (upload_turn, rest) ∷ []

entries-commands : commands entries ≡ codes "upload n" ∷ codes "quit" ∷ []
unfolding same_name
entries-commands = refl

entries-AreTyped : AreTyped entries
entries-AreTyped = (
  (refl, (refl, (refl, (refl, (refl, (refl, (refl, (refl, tt)))))))),
  (refl, (refl, (refl, (refl, (refl, (refl, (refl, (refl, tt)))))))),
  omega arith,
  (
    (refl, (refl, (refl, (refl, tt)))),
    (refl, (refl, (refl, (refl, tt)))),
    omega arith,
    ((refl, (refl, (refl, (refl, tt)))), (refl, (refl, (refl, (refl, tt)))), omega arith, tt),
  ),
)

session_obeyed_example :
    request (feed (rev_onto (sent_by (loop (map well entries) fresh)) []) turns) world
    ≡ obey (commands entries) turns world
session_obeyed_example = session_obeyed entries turns world entries-AreTyped

abbrev one_turn : List Turn
one_turn = upload_turn ∷ []

abbrev after : Outcome → World
after (continues w) = w
after (ended w) = w

goes_on : request one_turn world ≡ continues (after (request one_turn world))
unfolding request request_round read_round keyword command_name perform next_token strtok skip
    some_token cut same_name c_string upload upload_locked upload_opened respond find with_lock
    find_or_add find_or_add_with get_file get_file_from init_file
goes_on = refl

request-Bracketed_example : Bracketed world.locks (after (request one_turn world)).locks
unfolding keyword same_name c_string next_token command_name strtok skip some_token cut
request-Bracketed_example = request-Bracketed one_turn world (tt, tt) goes_on
