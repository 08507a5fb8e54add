-- ===== src/Server/Request/Copying.antt =====
-- What upload and download leave in the two directories.
use gtu_cse344_system_progra.Server.Request.World.{reader_enter}
use gtu_cse344_system_progra.Server.Request.Transfer.{download_found}
use gtu_cse344_system_progra.Server.Request.Transfer.{upload_locked}
use gtu_cse344_system_progra.Server.Request.Transfer.{download}
use gtu_cse344_system_progra.Server.Request.Transfer.{upload}
use gtu_cse344_system_progra.Server.Sync.Table.{find_or_add}
use gtu_cse344_system_progra.Server.Sync.Table.{Shared}
use gtu_cse344_system_progra.Base.Strings.{same_name, same_name_self, same_name_eq}
use gtu_cse344_system_progra.Base.{
  subst, some, none, Option, if◌then◌else◌, ℕ, zero, suc, ◌+◌, ◌<◌, ◌≡◌, refl, ap, sym, ◌∙◌, true,
  false, ◌==◌, [], ◌∷◌, ◌++◌, length, take, drop, take-append-drop, length-drop, arith, inl, inr,
  Bool-cases,
}
use gtu_cse344_system_progra.Server.Request.World.{
  with_lock-some, find, put, Dir, continues, respond, send, uploaded, downloaded, log, reader_exit,
  writer_enter, writer_exit, World, Bytes, Os,
}
use gtu_cse344_system_progra.Server.Sync.Table.{Name}
use gtu_cse344_system_progra.Server.Request.Transfer.{
  with_upload, upload_opened, upload_copied, download_locked, download_copied, Copied, copy_chunks,
  copy_file,
}

nil_of_empty : (b : Bytes) → (length b == 0) ≡ true → b ≡ []
nil_of_empty [] h = refl
nil_of_empty (c ∷ b) h = absurd (ground arith)

copy_chunks_all :
    (os : Os)
    → ((k : ℕ) → os.read_chunk k ≡ true)
    → ((k : ℕ) → os.write_chunk k ≡ true)
    → (fuel k : ℕ) (rest : Bytes) → length rest < fuel
    → copy_chunks os fuel k rest ≡ record { written = rest; failed = false }
unfolding copy_chunks
copy_chunks_all os reads writes zero k rest lt = absurd (omega arith)
copy_chunks_all os reads writes (suc fuel) k rest lt = elim (Bool-cases (length rest == 0)) [
  | inl e ↦
      rw (reads k, e) (ap (λ b. record { written = b; failed = false }) (sym (nil_of_empty rest e)))
  | inr e ↦
      rw (reads k, e, writes k)
        (ap (λ (c : Copied). record { written = take 4096 rest ++ c.written; failed = c.failed })
            (copy_chunks_all os reads writes fuel (k + 1) (drop 4096 rest)
              (ground (arith, length-drop 4096 rest)))
          ∙ ap (λ b. record { written = b; failed = false }) (take-append-drop 4096 rest))
]

-- Where no read or write fails, the copying loop copies every byte, in order, however long the file.
pub copy_file_all :
    (os : Os) (content : Bytes)
    → ((k : ℕ) → os.read_chunk k ≡ true)
    → ((k : ℕ) → os.write_chunk k ≡ true)
    → copy_file os content ≡ record { written = content; failed = false }
unfolding copy_file
copy_file_all os content reads writes =
    copy_chunks_all os reads writes (suc (length content)) 0 content (omega arith)

-- A directory after a write: the file has the new content, and every other file its old one.
pub find-put :
    (n m : Name) (b : Bytes) (d : Dir)
    → find n (put m b d) ≡ (if same_name m n then some b else find n d)
unfolding find put
find-put n m b [] = refl
find-put n m b ((j, c) ∷ d) = elim (Bool-cases (same_name j m)) [
  | inl e ↦ rw e (
      subst
        (λ i.
          (if same_name j n then some b else find n d)
          ≡ (if same_name i n then some b else if same_name j n then some c else find n d))
        (same_name_eq j m e) (ground arith))
  | inr e ↦
      rw e (ground (arith, find-put n m b d, same_name_eq j n, same_name_eq m n, same_name_self n))
]

module _ (os : Os) (file : Name) (content : Bytes) (w : World) {k : ℕ} {sd' : Shared}
    (entry : find_or_add os.sem file w.sd ≡ (some k, sd')) (opens : os.open_file ≡ true)
    (fifo : os.open_fifo ≡ true) (answer : os.write_fifo ≡ true) (creates : os.create_file ≡ true)
    (reads : (i : ℕ) → os.read_chunk i ≡ true) (writes : (i : ℕ) → os.write_chunk i ≡ true) where
  -- Where no call fails, the table has or gets an entry for the file, the client has the file and the
  -- server does not, an upload gives the server's directory the client's file with its content, leaves
  -- its other files and the client's directory alone, reports the length of the file, and enters and
  -- leaves the lock of that entry once, as a reader.
  pub upload_stores :
      find file w.client_dir ≡ some content
      → find file w.server_dir ≡ none
      → (w' : World) × (upload os (some file) w ≡ continues w')
        × ((n : Name)
            → find n w'.server_dir
              ≡ (if same_name file n then some content else find n w.server_dir))
        × (w'.client_dir ≡ w.client_dir)
        × (w'.replies ≡ uploaded (length content) ∷ w.replies)
        × (w'.locks ≡ reader_exit k ∷ reader_enter k ∷ w.locks)
  unfolding upload upload_locked upload_opened upload_copied respond
  upload_stores there absent = (
    send (uploaded (length content)) (
        log (reader_exit k)
          (with_upload file content (log (reader_enter k) (record w { sd = sd' })))),
    simp (
      with_lock-some os file (upload_locked os file) w entry,
      opens,
      there,
      absent,
      copy_file_all os content reads writes,
      creates,
      fifo,
      answer,
    ),
    λ n. find-put n file content w.server_dir,
    refl,
    refl,
    refl,
  )

  -- Where no call fails, the table has or gets an entry for the file, the server has the file and the
  -- client does not, a download gives the client's directory the server's file with its content,
  -- leaves its other files and the server's directory alone, reports the length of the file, and
  -- enters and leaves the lock of that entry once, as a writer.
  pub download_stores :
      find file w.server_dir ≡ some content
      → find file w.client_dir ≡ none
      → (w' : World) × (download os (some file) w ≡ continues w')
        × ((n : Name)
            → find n w'.client_dir
              ≡ (if same_name file n then some content else find n w.client_dir))
        × (w'.server_dir ≡ w.server_dir)
        × (w'.replies ≡ downloaded (length content) ∷ w.replies)
        × (w'.locks ≡ writer_exit k ∷ writer_enter k ∷ w.locks)
  unfolding download download_found download_locked download_copied respond
  download_stores there absent = (
    send (downloaded (length content)) (
        log (writer_exit k) (record (log (writer_enter k) (record w { sd = sd' })) {
          client_dir = put file content w.client_dir;
        })),
    simp (
      with_lock-some os file (download_locked os file content) w entry,
      there,
      opens,
      absent,
      copy_file_all os content reads writes,
      creates,
      fifo,
      answer,
    ),
    λ n. find-put n file content w.client_dir,
    refl,
    refl,
    refl,
  )

-- Where the server has a file of that name, an upload that lets the server go on changes nothing in
-- the server's directory, whatever calls fail.
pub upload_keeps :
    (os : Os) (file : Name) (k : ℕ) (o : Option Bytes) (w : World) {old : Bytes} {w' : World}
    → find file w.server_dir ≡ some old
    → upload_opened os file k o w ≡ continues w'
    → w'.server_dir ≡ w.server_dir
unfolding upload_opened respond
upload_keeps os file k none w there h = ground arith
upload_keeps os file k (some content) w there h = ground arith
