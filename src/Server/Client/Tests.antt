-- ===== src/Server/Client/Tests.antt =====
-- A client that sends two commands.
use gtu_cse344_system_progra.Base.{false, ◌≡◌, refl, true, some, [], ◌∷◌, ◌++◌}
use gtu_cse344_system_progra.Base.Strings.{codes, same_name, c_string}
use gtu_cse344_system_progra.Server.Client.{Setup, Round, ends, strip, client_main, show_pieces}
use gtu_cse344_system_progra.Server.Client.Cleanup.{HasEnd, Cleans, client_main-Cleans}

abbrev a_setup : Setup
a_setup = record {
  arguments = 3;
  connection_type = codes "tryConnect";
  make_fifo = true;
  open_server = true;
  write_server = true;
  open_answer = true;
  full = some 0;
}

abbrev a_round : Round
a_round = record {
  server_there = true;
  line = some (codes "help" ++ (b'\n' ∷ []));
  server_still = true;
  open_write = true;
  write = true;
  open_read = true;
  pieces = codes "text" ∷ [];
}

abbrev quit_round : Round
quit_round = record a_round { line = some (codes "quit" ++ (b'\n' ∷ [])) }

quits :
    client_main a_setup (a_round ∷ quit_round ∷ [])
    ≡ ends true (record {
      has_fifo = false;
      sent = (codes "quit" ++ (0 ∷ [])) ∷ (codes "help" ++ (0 ∷ [])) ∷ [];
      shown = codes "text" ∷ [];
    })
unfolding client_main strip same_name show_pieces c_string
quits = refl

client_main-Cleans_example :
    Cleans (HasEnd (a_round ∷ quit_round ∷ [])) (client_main a_setup (a_round ∷ quit_round ∷ []))
client_main-Cleans_example = client_main-Cleans a_setup (a_round ∷ quit_round ∷ [])
