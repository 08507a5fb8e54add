-- ===== src/Server/Request/Tests.antt =====
-- Commands of `request` on a file of two lines and a half, where every call succeeds or where the
-- temporary file cannot be made.
use gtu_cse344_system_progra.Server.Sync.Table.{init_file}
use gtu_cse344_system_progra.Server.Sync.Table.{get_file_from}
use gtu_cse344_system_progra.Server.Sync.Table.{get_file}
use gtu_cse344_system_progra.Server.Sync.Table.{find_or_add_with}
use gtu_cse344_system_progra.Server.Request.Transfer.{download}
use gtu_cse344_system_progra.Server.Sync.Table.{Shared}
use gtu_cse344_system_progra.Server.Sync.Table.{find_or_add}
use gtu_cse344_system_progra.Server.Request.Command.{Turn, request_round}
use gtu_cse344_system_progra.Base.Strings.{same_name}
use gtu_cse344_system_progra.Base.{
  ◌≡◌, refl, true, false, some, none, List, [], ◌∷◌, ◌++◌, length, set, arith, if◌then◌else◌,
}
use gtu_cse344_system_progra.Server.Request.Transfer.{
  upload, copy_chunks, upload_copied, download_copied, upload_locked, copy_file, upload_opened,
  download_locked,
}
use gtu_cse344_system_progra.Server.Request.Command.Line.{word, upload_verb, line_meant}
use gtu_cse344_system_progra.Server.Request.Write.Lines.{
  AllText, AllShort, copy_back-read_pieces, replace_line,
}
use gtu_cse344_system_progra.Server.Request.Write.{
  fgets_all, replace_placed, append_text, replace_filled, append_locked, replace_locked,
  replace_opened, read_pieces, fill_temp, copy_back,
}
use gtu_cse344_system_progra.Server.Request.World.{
  ended, reader_enter, writer_enter, Outcome, writer_exit, Bytes, text, uploaded, downloaded,
  reader_exit, World, Os, continues, find, log, send, respond,
}
use gtu_cse344_system_progra.Server.Request.Read.{opened, send_file}
use gtu_cse344_system_progra.Base.Int.{pos}
use gtu_cse344_system_progra.Server.Sync.Table.{Name}
use gtu_cse344_system_progra.Server.Request.Read.Lines.{AllOneLine, join_lines}
use gtu_cse344_system_progra.Server.Request.Read.Whole.{sent, send_file_all}
use gtu_cse344_system_progra.Server.Request.Copying.{copy_file_all, upload_stores, download_stores}
use gtu_cse344_system_progra.Server.Request.Write.Stores.{replace_stores}

abbrev lines : List Bytes
lines = (b'o' ∷ b'n' ∷ []) ∷ (b't' ∷ []) ∷ []

abbrev pub rest : Bytes
rest = b'x' ∷ []

lines-AllOneLine : AllOneLine lines
lines-AllOneLine = ((refl, (refl, tt)), ((refl, tt), tt))

lines-AllText : AllText lines
lines-AllText = ((refl, (refl, tt)), ((refl, tt), tt))

lines-AllShort : AllShort lines
lines-AllShort = (omega arith, (omega arith, tt))

abbrev file_content : Bytes
file_content = join_lines lines ++ rest

abbrev file_name : Name
file_name = b'f' ∷ []

abbrev new_name : Name
new_name = b'n' ∷ []

abbrev all_work : Os
all_work = record {
  open_fifo = true;
  write_fifo = true;
  open_again = true;
  write_again = true;
  sem = record { reader = true; writer = true };
  open_file = true;
  create_file = true;
  tmpfile = true;
  write_file = true;
  write_newline = true;
  opendir = true;
  fork = true;
  tar = true;
  read_chunk = λ _. true;
  write_chunk = λ _. true;
}

abbrev no_tmpfile : Os
no_tmpfile = record all_work { tmpfile = false }

abbrev pub world : World
world = record {
  client_dir = (file_name, file_content) ∷ [];
  server_dir = (file_name, rest) ∷ [];
  sd = record { capacity = 64; size = 0; files = [] };
  locks = [];
  replies = [];
  client_fifo = true;
  server_fifo = true;
  killed = false;
}

send_file_all_example :
    (w' : World) × (send_file all_work 0 file_content world ≡ continues w')
    × (sent w'.replies ≡ [] ++ file_content)
    × (w'.locks ≡ reader_exit 0 ∷ [])
send_file_all_example = send_file_all all_work 0 file_content world (λ _. refl) (λ _. refl)

copy_back-read_pieces_example : copy_back (read_pieces file_content) ≡ file_content
copy_back-read_pieces_example =
    copy_back-read_pieces file_content (refl, (refl, (refl, (refl, (refl, (refl, tt))))))

replace_line_example :
    let (temp, placed) = fill_temp 2 new_name 0 (read_pieces file_content) in
    (placed ≡ true) × (copy_back (read_pieces temp) ≡ join_lines (set lines 1 new_name) ++ rest)
replace_line_example =
    replace_line 1 new_name lines rest lines-AllOneLine lines-AllShort lines-AllText (refl, tt)
      (omega arith) (refl, tt) (refl, tt) (omega arith)

copy_file_all_example :
    copy_file all_work file_content ≡ record { written = file_content; failed = false }
copy_file_all_example = copy_file_all all_work file_content (λ _. refl) (λ _. refl)

absent : find new_name world.server_dir ≡ none
unfolding find same_name
absent = refl

there : find file_name world.server_dir ≡ some rest
unfolding find same_name
there = refl

has_file : find file_name world.client_dir ≡ some file_content
unfolding find same_name
has_file = refl

abbrev empty_server : World
empty_server = record world { server_dir = [] }

abbrev empty_client : World
empty_client = record world { client_dir = [] }

-- The table after the first entry.
abbrev one_entry : Shared
one_entry = record { capacity = 64; size = 1; files = [] }

adds_entry : find_or_add all_work.sem file_name world.sd ≡ (some 0, one_entry)
unfolding find_or_add find_or_add_with get_file get_file_from init_file
adds_entry = refl

upload_stores_example :
    (w' : World) × (upload all_work (some file_name) empty_server ≡ continues w')
    × ((n : Name)
        → find n w'.server_dir ≡ (if same_name file_name n then some file_content else find n []))
    × (w'.client_dir ≡ world.client_dir)
    × (w'.replies ≡ uploaded (length file_content) ∷ [])
    × (w'.locks ≡ reader_exit 0 ∷ reader_enter 0 ∷ [])
unfolding find
upload_stores_example =
    upload_stores all_work file_name file_content empty_server adds_entry refl refl refl refl
      (λ _. refl) (λ _. refl) has_file refl

download_stores_example :
    (w' : World) × (download all_work (some file_name) empty_client ≡ continues w')
    × ((n : Name) → find n w'.client_dir ≡ (if same_name file_name n then some rest else find n []))
    × (w'.server_dir ≡ world.server_dir)
    × (w'.replies ≡ downloaded (length rest) ∷ [])
    × (w'.locks ≡ writer_exit 0 ∷ writer_enter 0 ∷ [])
unfolding find
download_stores_example =
    download_stores all_work file_name rest empty_client adds_entry refl refl refl refl (λ _. refl)
      (λ _. refl) there refl

refused : World
refused = log (reader_exit 0) (send (text "File already exists in the server's directory\n") world)

upload-refused : upload_opened all_work file_name 0 (some file_content) world ≡ continues refused
unfolding upload_opened find same_name respond refused
upload-refused = refl

-- The world after a handler.
abbrev after : Outcome → World
after (continues w) = w
after (ended w) = w

uploads :
    upload_locked all_work file_name 0 empty_server
    ≡ continues (after (upload_locked all_work file_name 0 empty_server))
unfolding upload_locked upload_opened upload_copied respond find same_name copy_file copy_chunks
uploads = refl

downloads :
    download_locked all_work new_name rest 0 world
    ≡ continues (after (download_locked all_work new_name rest 0 world))
unfolding download_locked download_copied respond copy_file copy_chunks
downloads = refl

appends :
    append_locked all_work file_name new_name 0 world
    ≡ continues (after (append_locked all_work file_name new_name 0 world))
unfolding append_locked append_text find same_name respond
appends = refl

opens_file : opened all_work.open_file (find file_name world.client_dir) ≡ some file_content
unfolding find same_name
opens_file = refl

leaks :
    replace_locked no_tmpfile file_name 2 (some new_name) 0 world
    ≡ continues (after (replace_locked no_tmpfile file_name 2 (some new_name) 0 world))
unfolding replace_locked replace_opened find same_name respond
leaks = refl

replaces :
    replace_opened all_work file_name 2
      (some new_name)
      0
      (some file_content)
      (log (reader_enter 0) world)
    ≡ continues (
        after (
          replace_opened all_work file_name 2
            (some new_name)
            0
            (some file_content)
            (log (reader_enter 0) world)))
unfolding replace_opened replace_filled replace_placed fill_temp read_pieces fgets_all respond
replaces = refl

replace_stores_example :
    (w' : World) × (replace_locked all_work file_name 2 (some new_name) 0 world ≡ continues w')
    × ((n : Name)
        → find n w'.client_dir ≡ (
            if same_name file_name n
            then some (join_lines (set lines 1 new_name) ++ rest)
            else find n world.client_dir))
    × (w'.locks ≡ writer_exit 0 ∷ writer_enter 0 ∷ reader_exit 0 ∷ reader_enter 0 ∷ [])
replace_stores_example =
    replace_stores all_work file_name new_name 0 world refl refl 1 lines rest refl refl refl
      lines-AllOneLine lines-AllShort lines-AllText (refl, tt) (omega arith) (refl, tt) (refl, tt)
      (omega arith) has_file

abbrev pub upload_turn : Turn
upload_turn = record {
  open_read = true;
  line = some ((word upload_verb ++ (b' ' ∷ new_name)) ++ (0 ∷ rest));
  os = all_work;
  entries = [];
  atoi = λ t. pos 0;
  atoi_digits = λ t. 0;
  archive = λ d. [];
  stale_name = [];
  stale_text = [];
}

line_meant_example : request_round upload_turn world ≡ upload all_work (some new_name) world
line_meant_example =
    line_meant upload_verb upload_turn b'n' [] rest world refl refl (refl, tt) (refl, tt)
