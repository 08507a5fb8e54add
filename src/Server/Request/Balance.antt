-- ===== src/Server/Request/Balance.antt =====
-- Which commands give a file's lock back: after each handler that lets the loop of `request` go on,
-- the calls on the lock that it has made.
use gtu_cse344_system_progra.Server.Request.Write.{
  read_pieces, fill_temp, replace_filled, append_locked, replace_placed, replace_opened,
  replace_locked,
}
use gtu_cse344_system_progra.Base.{
  ℕ, ◌≡◌, ◌⊎◌, subst, ◌∷◌, arith, Bool, true, false, Option, some, none,
}
use gtu_cse344_system_progra.Server.Sync.Table.{Name}
use gtu_cse344_system_progra.Server.Request.World.{
  Bytes, Reply, reader_enter, reader_exit, writer_enter, writer_exit, World, Os, continues, find,
  log, respond, respond_keep,
}
use gtu_cse344_system_progra.Server.Request.Read.{opened}
use gtu_cse344_system_progra.Server.Request.Transfer.{
  Copied, copy_file, upload_copied, upload_opened, upload_locked, download_copied, download_locked,
}

pub respond-locks :
    (os : Os) (r : Reply) (w : World) {w' : World}
    → respond os r w ≡ continues w'
    → w'.locks ≡ w.locks
unfolding respond
respond-locks os r w h = ground arith

upload_copied-locks :
    (os : Os) (file : Name) (k : ℕ) (c : Copied) (w : World) {w' : World}
    → upload_copied os file k c w ≡ continues w'
    → w'.locks ≡ reader_exit k ∷ w.locks
unfolding upload_copied respond
upload_copied-locks os file k c w h = ground arith

upload_opened-locks :
    (os : Os) (file : Name) (k : ℕ) (o : Option Bytes) (w : World) {w' : World}
    → upload_opened os file k o w ≡ continues w'
    → w'.locks ≡ reader_exit k ∷ w.locks
unfolding upload_opened respond
upload_opened-locks os file k none w h = ground arith
upload_opened-locks os file k (some content) w {w'} h =
    ground (arith, upload_copied-locks os file k (copy_file os content) w {w' = w'})

-- An upload that lets the server go on has entered the file's lock as a reader, and left it once.
pub upload_balanced :
    (os : Os) (file : Name) (k : ℕ) (w : World) {w' : World}
    → upload_locked os file k w ≡ continues w'
    → w'.locks ≡ reader_exit k ∷ reader_enter k ∷ w.locks
unfolding upload_locked
upload_balanced os file k w h =
    upload_opened-locks os file k (opened os.open_file (find file w.client_dir))
      (log (reader_enter k) w) h

download_copied-locks :
    (os : Os) (file : Name) (k : ℕ) (c : Copied) (w : World) {w' : World}
    → download_copied os file k c w ≡ continues w'
    → w'.locks ≡ writer_exit k ∷ w.locks
unfolding download_copied respond
download_copied-locks os file k c w h = ground arith

-- A download that lets the server go on has entered the file's lock as a writer, and left it once.
pub download_balanced :
    (os : Os) (file : Name) (content : Bytes) (k : ℕ) (w : World) {w' : World}
    → download_locked os file content k w ≡ continues w'
    → w'.locks ≡ writer_exit k ∷ writer_enter k ∷ w.locks
unfolding download_locked respond
download_balanced os file content k w {w'} h = ground (
  arith,
  download_copied-locks os file k (copy_file os content) (log (writer_enter k) w) {w' = w'},
)

-- A writeT without a line number that lets the server go on has entered the file's lock as a writer,
-- and left it once, whether its writes to the file have failed or not.
pub append_balanced :
    (os : Os) (file : Name) (str : Bytes) (k : ℕ) (w : World) {w' : World}
    → append_locked os file str k w ≡ continues w'
    → w'.locks ≡ writer_exit k ∷ writer_enter k ∷ w.locks
unfolding append_locked respond respond_keep
append_balanced os file str k w h = ground arith

pub replace_placed-locks :
    (os : Os) (file : Name) (k : ℕ) (r : Bytes × Bool) (w : World) {w' : World}
    → replace_placed os file k r w ≡ continues w'
    → (w'.locks ≡ w.locks) ⊎ (w'.locks ≡ writer_exit k ∷ writer_enter k ∷ w.locks)
unfolding replace_placed respond
replace_placed-locks os file k (temp, true) w h = ground arith
replace_placed-locks os file k (temp, false) w h = ground arith

replace_no_temp :
    (os : Os) (file : Name) (line_number : ℕ) (str : Option Bytes) (k : ℕ) (content : Bytes)
    (w : World) {w' : World}
    → os.tmpfile ≡ false
    → replace_opened os file line_number str k (some content) w ≡ continues w'
    → w'.locks ≡ w.locks
unfolding replace_opened respond
replace_no_temp os file line_number str k content w no_temp h = ground arith

-- Where the file can be opened and the temporary file cannot be made, writeT with a line number, if
-- its answer can be sent, lets the loop go on with the lock entered as a reader and not left.
pub replace_leaks :
    (os : Os) (file : Name) (line_number : ℕ) (str : Option Bytes) (k : ℕ) (w : World)
    {content : Bytes} {w' : World}
    → opened os.open_file (find file w.client_dir) ≡ some content
    → os.tmpfile ≡ false
    → replace_locked os file line_number str k w ≡ continues w'
    → w'.locks ≡ reader_enter k ∷ w.locks
unfolding replace_locked
replace_leaks os file line_number str k w {content} {w'} found no_temp h =
    replace_no_temp os file line_number str k content (log (reader_enter k) w) no_temp (
      subst
        (λ o. replace_opened os file line_number str k o (log (reader_enter k) w) ≡ continues w')
        found h)

-- With a line number, a temporary file and a string, a writeT that has opened the file and lets the
-- server go on has entered the lock as a reader and left it once; it has then done no more to the
-- lock, or entered it as a writer and left it once.
pub replace_balanced :
    (os : Os) (file : Name) (line_number : ℕ) (str : Bytes) (k : ℕ) (content : Bytes) (w : World)
    {w' : World}
    → os.tmpfile ≡ true
    → replace_opened os file line_number (some str) k (some content) (log (reader_enter k) w)
      ≡ continues w'
    → (w'.locks ≡ reader_exit k ∷ reader_enter k ∷ w.locks)
      ⊎ (w'.locks ≡ writer_exit k ∷ writer_enter k ∷ reader_exit k ∷ reader_enter k ∷ w.locks)
unfolding replace_opened replace_filled
replace_balanced os file line_number str k content w {w'} temp h =
    replace_placed-locks os file k (fill_temp line_number str 0 (read_pieces content))
      (log (reader_exit k) (log (reader_enter k) w)) {w' = w'} (ground arith)
