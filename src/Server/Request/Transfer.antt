-- ===== src/Server/Request/Transfer.antt =====
-- The commands upload, download and archServer of `request` in Midterm/src/server.c.
use gtu_cse344_system_progra.Base.Strings.{same_name}
use gtu_cse344_system_progra.Base.{
  ℕ, zero, suc, ◌+◌, ◌-◌, Bool, true, false, not, ◌&&◌, ◌||◌, Option, some, none, [], ◌∷◌, ◌++◌,
  ◌==◌, leb, length, take, drop, if◌then◌else◌,
}
use gtu_cse344_system_progra.Server.Sync.Table.{Name}
use gtu_cse344_system_progra.Server.Request.World.{
  Bytes, Dir, text, uploaded, downloaded, reader_enter, reader_exit, writer_enter, writer_exit,
  World, Os, Outcome, continues, ended, ◌>>=◌, find, put, log, respond, with_lock,
}
use gtu_cse344_system_progra.Server.Request.Read.{opened}

-- The copying loop from its round `k`: what has been written, and whether a write fell short. A
-- failed read ends the loop as the end of the file does.
pub record Copied : Type 0 where
  pub written : Bytes
  pub failed : Bool

abbrev pub prepend : Bytes → Copied → Copied
prepend b c = record c { written = b ++ c.written }

unfoldable pub copy_chunks : Os → ℕ → ℕ → Bytes → Copied
copy_chunks os zero k rest = record { written = []; failed = false }
copy_chunks os (suc fuel) k rest =
    let more = copy_chunks os fuel (k + 1) (drop 4096 rest) in
    if not (os.read_chunk k) || length rest == 0
    then record { written = []; failed = false }
    else if not (os.write_chunk k)
    then record { written = []; failed = true }
    else prepend (take 4096 rest) more

unfoldable pub copy_file : Os → Bytes → Copied
unfolding copy_chunks
copy_file os content = copy_chunks os (suc (length content)) 0 content

abbrev pub is_some_file : Option Bytes → Bool
is_some_file none = false
is_some_file (some b) = true

unfoldable pub leave_reader : ℕ → World → Outcome
leave_reader k w = continues (log (reader_exit k) w)

unfoldable pub leave_writer : ℕ → World → Outcome
leave_writer k w = continues (log (writer_exit k) w)

abbrev pub with_upload : Name → Bytes → World → World
with_upload file b w = record w { server_dir = put file b w.server_dir }

-- What a file holds after `open` without O_TRUNC and a write from its start.
abbrev pub overwrite : Bytes → Option Bytes → Bytes
overwrite b none = b
overwrite b (some old) = b ++ drop (length b) old

abbrev pub with_download : Name → Bytes → World → World
with_download file b w = record w {
  client_dir = put file (overwrite b (find file w.client_dir)) w.client_dir;
}

-- The end of an upload. What a failed copy has written so far stays in the server's directory.
unfoldable pub upload_copied : Os → Name → ℕ → Copied → World → Outcome
unfolding leave_reader
upload_copied os file k c w =
    if c.failed
    then (respond os (text "Error writing data to the server's file\n")
          (with_upload file c.written w)
        >>= leave_reader k)
    else respond os (uploaded (length c.written))
        (log (reader_exit k) (with_upload file c.written w))

unfoldable pub upload_opened : Os → Name → ℕ → Option Bytes → World → Outcome
unfolding leave_reader
upload_opened os file k none w =
    respond os (text "Error opening file for upload\n") w >>= leave_reader k
upload_opened os file k (some content) w =
    if is_some_file (find file w.server_dir)
    then (respond os (text "File already exists in the server's directory\n") w >>= leave_reader k)
    else if not os.create_file
    then (respond os (text "Error creating file in the server's directory\n") w >>= leave_reader k)
    else upload_copied os file k (copy_file os content) w

unfoldable pub upload_locked : Os → Name → ℕ → World → Outcome
unfolding upload_opened
upload_locked os file k w =
    upload_opened os file k (opened os.open_file (find file w.client_dir)) (log (reader_enter k) w)

unfoldable pub upload : Os → Option Name → World → Outcome
unfolding upload_locked
upload os none w = respond os (text "Error opening file for upload\n") w
upload os (some file) w = with_lock os file (upload_locked os file) w

unfoldable pub download_copied : Os → Name → ℕ → Copied → World → Outcome
unfolding leave_writer
download_copied os file k c w =
    if c.failed
    then (respond os (text "Error occured while downloading the file.\n")
          (with_download file c.written w)
        >>= leave_writer k)
    else respond os (downloaded (length c.written))
        (log (writer_exit k) (with_download file c.written w))

unfoldable pub download_locked : Os → Name → Bytes → ℕ → World → Outcome
unfolding leave_writer
download_locked os file content k w0 =
    let w = log (writer_enter k) w0 in
    if not os.create_file
    then (respond os (text "Failed to download file.\n") w >>= leave_writer k)
    else download_copied os file k (copy_file os content) w

-- `access` finds the file, and `open` may then fail.
unfoldable pub download_found : Os → Name → Option Bytes → World → Outcome
unfolding download_locked
download_found os file none w =
    respond os (text "File does not exist in the server's directory\n") w
download_found os file (some content) w =
    if not os.open_file
    then respond os (text "Error opening file for download\n") w
    else if is_some_file (find file w.client_dir)
    then respond os (text "File already exists in the client's directory\n") w
    else with_lock os file (download_locked os file content) w

unfoldable pub download : Os → Option Name → World → Outcome
unfolding download_found
download os none w = respond os (text "No file name provided for download\n") w
download os (some file) w = download_found os file (find file w.server_dir) w

-- `len < 4 || strcmp(archiveName + len - 4, ".tar") != 0`, negated.
unfoldable pub ends_in_tar : Name → Bool
unfolding same_name
ends_in_tar n =
    leb 4 (length n) && same_name (drop (length n - 4) n) (b'.' ∷ b't' ∷ b'a' ∷ b'r' ∷ [])

-- `archive` is what `tar` makes of the files of a directory. A failed `fork` ends the process.
unfoldable pub arch_named : (Dir → Bytes) → Os → Name → World → Outcome
arch_named archive os n w =
    if not os.fork
    then ended w
    else if not os.tar
    then respond os (text "Failed to archive server directory.\n") w
    else respond os
        (text "Succesfully archived server directory, created .tar file is in server directory.\n")
        (with_upload n (archive w.server_dir) w)

unfoldable pub arch_server : (Dir → Bytes) → Os → Option Name → World → Outcome
unfolding ends_in_tar arch_named
arch_server archive os none w = respond os (text "No file name provided for archServer\n") w
arch_server archive os (some n) w =
    if not (ends_in_tar n)
    then respond os (text "Invalid filename. Must end with \".tar\"\n") w
    else arch_named archive os n w
