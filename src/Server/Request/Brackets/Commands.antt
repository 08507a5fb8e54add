-- ===== src/Server/Request/Brackets/Commands.antt =====
-- The calls on locks of each command of `request` in Midterm/src/server.c, and of a session.
use gtu_cse344_system_progra.Server.Request.Balance.{
  respond-locks, upload_balanced, download_balanced, append_balanced, replace_placed-locks,
}
use gtu_cse344_system_progra.Base.{
  ℕ, ◌≡◌, ◌⊎◌, inl, inr, ap, sym, ◌∙◌, subst, Bool, if-cases, not, true, false, Option, some, none,
  List, ◌∷◌, arith,
}
use gtu_cse344_system_progra.Server.Sync.Table.{Name}
use gtu_cse344_system_progra.Server.Request.World.{
  Bytes, Dir, text, LockCall, reader_enter, reader_exit, writer_enter, writer_exit, World, Os,
  continues, find, log, respond, with_lock-continues,
}
use gtu_cse344_system_progra.Server.Request.Read.{opened}
use gtu_cse344_system_progra.Server.Request.Write.{
  Target, append, replace, append_locked, replace_locked, replace_opened, replace_filled, fill_temp,
  read_pieces, string_or_nil, exit_reader, write_target, parse_target, write_t,
}
use gtu_cse344_system_progra.Server.Request.Transfer.{
  is_some_file, upload_locked, upload, download_locked, download_found, download, arch_named,
  arch_server,
}
use gtu_cse344_system_progra.Server.Request.Brackets.{
  Bracketed, same, read, written, same_as, read_as, written_as, respond_keep-locks,
}

-- A reader's calls on top of what a command began with.
abbrev read_calls : ℕ → List LockCall → List LockCall
read_calls k l = reader_exit k ∷ reader_enter k ∷ l

abbrev write_calls : ℕ → List LockCall → List LockCall
write_calls k l = writer_exit k ∷ writer_enter k ∷ l

pub upload-Bracketed :
    (os : Os) (file : Option Name) (w : World) {w' : World}
    → upload os file w ≡ continues w'
    → Bracketed w.locks w'.locks
unfolding upload
upload-Bracketed os none w h =
    same_as (respond-locks os (text "Error opening file for upload\n") w h)
upload-Bracketed os (some file) w h =
    let (k, v, e, g) = with_lock-continues os file (upload_locked os file) w h in
    read_as k (upload_balanced os file k v g ∙ ap (read_calls k) e)

download_found-Bracketed :
    (os : Os) (file : Name) (o : Option Bytes) (w : World) {w' : World}
    → download_found os file o w ≡ continues w'
    → Bracketed w.locks w'.locks
unfolding download_found
download_found-Bracketed os file none w h =
    same_as (respond-locks os (text "File does not exist in the server's directory\n") w h)
download_found-Bracketed os file (some content) w h = elim (if-cases (not os.open_file) h) [
  | inl (e, g) ↦ same_as (respond-locks os (text "Error opening file for download\n") w g)
  | inr (e, g) ↦ elim (if-cases (is_some_file (find file w.client_dir)) g) [
    | inl (f, g') ↦
        same_as (respond-locks os (text "File already exists in the client's directory\n") w g')
    | inr (f, g') ↦
        let (k, v, p, q) = with_lock-continues os file (download_locked os file content) w g' in
        written_as k (download_balanced os file content k v q ∙ ap (write_calls k) p)
  ]
]

pub download-Bracketed :
    (os : Os) (file : Option Name) (w : World) {w' : World}
    → download os file w ≡ continues w'
    → Bracketed w.locks w'.locks
unfolding download
download-Bracketed os none w h =
    same_as (respond-locks os (text "No file name provided for download\n") w h)
download-Bracketed os (some file) w h =
    download_found-Bracketed os file (find file w.server_dir) w h

-- What a writeT with a line number comes to when the reader's lock is entered.
abbrev Replaced : ℕ → List LockCall → List LockCall → Type 0
Replaced k l l' = (l' ≡ reader_exit k ∷ l) ⊎ (l' ≡ write_calls k (reader_exit k ∷ l))

replace_filled-Replaced :
    (os : Os) (file : Name) (k : ℕ) (str : Option Bytes) (r : Bytes × Bool) (w : World) {w' : World}
    → replace_filled os file k str r w ≡ continues w'
    → Replaced k w.locks w'.locks
unfolding replace_filled
replace_filled-Replaced os file k none (temp, true) w h = ground arith
replace_filled-Replaced os file k none (temp, false) w h =
    replace_placed-locks os file k (temp, false) (log (reader_exit k) w) h
replace_filled-Replaced os file k (some str) r w h =
    replace_placed-locks os file k r (log (reader_exit k) w) h

replace_opened-Replaced :
    (os : Os) (file : Name) (n : ℕ) (str : Option Bytes) (k : ℕ) (o : Option Bytes) (w : World)
    {w' : World}
    → os.tmpfile ≡ true
    → replace_opened os file n str k o w ≡ continues w'
    → Replaced k w.locks w'.locks
unfolding replace_opened exit_reader respond
replace_opened-Replaced os file n str k none w temp h = ground arith
replace_opened-Replaced os file n str k (some content) w temp h =
    replace_filled-Replaced os file k str (fill_temp n (string_or_nil str) 0 (read_pieces content))
      w (rw temp at h)

replaced-Bracketed :
    (k : ℕ) {a v b : List LockCall} → v ≡ a → Replaced k (reader_enter k ∷ v) b → Bracketed a b
replaced-Bracketed k e (inl p) = read_as k (p ∙ ap (read_calls k) e)
replaced-Bracketed k {a} e (inr p) =
    subst (Bracketed a) (sym (p ∙ ap (λ (l : List LockCall). write_calls k (read_calls k l)) e))
      (written k (read k same))

write_target-Bracketed :
    (os : Os) (file : Name) (target : Target) (w : World) {w' : World}
    → os.tmpfile ≡ true
    → write_target os file target w ≡ continues w'
    → Bracketed w.locks w'.locks
unfolding write_target replace_locked
write_target-Bracketed os file (append str) w temp h =
    let (k, v, e, g) = with_lock-continues os file (append_locked os file str) w h in
    written_as k (append_balanced os file str k v g ∙ ap (write_calls k) e)
write_target-Bracketed os file (replace n str) w temp h =
    let (k, v, e, g) = with_lock-continues os file (replace_locked os file n str) w h in
    replaced-Bracketed k e (
      replace_opened-Replaced os file n str k (opened os.open_file (find file v.client_dir))
        (log (reader_enter k) v) temp g)

pub write_t-Bracketed :
    (atoi : Name → ℕ) (stale : Bytes) (os : Os) (file line_token : Option Name)
    (next_token : Option Bytes) (rest : Bytes) (w : World) {w' : World}
    → os.tmpfile ≡ true
    → write_t atoi stale os file line_token next_token rest w ≡ continues w'
    → Bracketed w.locks w'.locks
unfolding write_t
write_t-Bracketed atoi stale os none line_token next_token rest w temp h =
    same_as (respond_keep-locks os (text "Invalid file name.\n") w h)
write_t-Bracketed atoi stale os (some file) line_token next_token rest w temp h =
    write_target-Bracketed os file (parse_target atoi stale line_token next_token rest) w temp h

pub arch_server-locks :
    (archive : Dir → Bytes) (os : Os) (file : Option Name) (w : World) {w' : World}
    → arch_server archive os file w ≡ continues w'
    → w'.locks ≡ w.locks
unfolding arch_server arch_named respond
arch_server-locks archive os none w h = ground arith
arch_server-locks archive os (some n) w h = ground arith
