-- ===== src/Server/Request/Info.antt =====
-- The commands of `request` in Midterm/src/server.c that change no file: help, list, killServer,
-- and what answers an unknown command.
use Prim.Native.String.{String}
use gtu_cse344_system_progra.Base.{◌≡◌, arith, true, false, not, List, [], ◌∷◌, ◌++◌, if◌then◌else◌}
use gtu_cse344_system_progra.Server.Sync.Table.{Name, is_dot_entry}
use gtu_cse344_system_progra.Server.Request.World.{
  Bytes, text, contents, World, Os, Outcome, continues, ended, ◌>>=◌, respond, respond_keep,
}

pub data Topic : Type 0 where
  general read_f write_t upload download arch_server kill_server : Topic

unfoldable pub help_text : Topic → String
help_text general =
    "Available commands are:\n\nhelp, list, readF, writeT, upload, download, archServer, killServer, quit\n"
help_text read_f =
    "\n\nreadF <file> <line #>\nDisplay the #th line of the <file>, returns with an error if <file> does not exists.\n\n"
help_text write_t =
    "\n\nwriteT <file> <line #> <string>\nWrite the  content of “string” to the  #th  line the <file>, if the line # is not given writes to the end of file. If the file does not exists in Servers directory creates and edits thefile at the same time.\n\n"
help_text upload =
    "\n\nupload <file>\nUploads the file from the current working directory of client to the Servers directory.\n\n"
help_text download = "\n\ndownload <file>\nReceive <file> from Servers directory to client side\n\n"
help_text arch_server =
    "\n\narchServer <fileName>.tar\nUsing fork, exec and tar utilities create a child process that will collect all the files currently available on the the  Server side and store them in the <filename>.tar archive\n\n"
help_text kill_server = "\n\nkillServer\nSends a kill request to the Server\n\n"

unfoldable pub help : Os → Topic → World → Outcome
unfolding help_text
help os t w = respond os (text (help_text t)) w

-- The loop over the entries of the server's directory.
unfoldable pub list_entries : List Name → Bytes
list_entries [] = []
list_entries (n ∷ ns) =
    if is_dot_entry n then list_entries ns else n ++ (b'\n' ∷ []) ++ list_entries ns

-- The FIFO is opened first; where the directory cannot be opened it is opened once more.
-- `entries` is what `readdir` gives, and the names fit the 4096 bytes of `response`.
unfoldable pub list_files : Os → List Name → World → Outcome
unfolding list_entries
list_files os entries w =
    if not os.open_fifo
    then ended w
    else if not os.opendir
    then respond os (text "Error opening server directory.\n") w
    else respond os (contents (list_entries entries)) w

kill_parent : World → Outcome
kill_parent w = continues (record w { client_fifo = false; killed = true; server_fifo = false })

unfoldable pub kill_server_command : Os → World → Outcome
unfolding kill_parent
kill_server_command os w = respond os (text "\nKilling the server...\n") w >>= kill_parent

unfoldable pub invalid_command : Os → World → Outcome
invalid_command os w = respond_keep os (text "\ninvalid command\n") w

pub kill_server_command-locks :
    (os : Os) (w : World) {w' : World}
    → kill_server_command os w ≡ continues w'
    → w'.locks ≡ w.locks
unfolding kill_server_command kill_parent respond
kill_server_command-locks os w h = ground arith
