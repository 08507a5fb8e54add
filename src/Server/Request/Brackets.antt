-- ===== src/Server/Request/Brackets.antt =====
-- The calls on locks of a whole session with `request` in Midterm/src/server.c.
pub mod Commands
pub mod Session
use gtu_cse344_system_progra.Base.{
  ℕ, suc, zero, ◌+◌, ◌≡◌, ◌≢◌, ◌⊎◌, inl, inr, refl, ap, sym, ◌∙◌, subst, Bool, Bool-cases, true,
  false, Option, some, none, List, [], ◌∷◌, length, drop, take, arith,
}
use gtu_cse344_system_progra.Base.Int.{ℤ, negsuc}
use gtu_cse344_system_progra.Base.Strings.{c_string}
use gtu_cse344_system_progra.Server.Sync.Table.{Name}
use gtu_cse344_system_progra.Server.Request.World.{
  Bytes, Reply, LockCall, reader_enter, reader_exit, writer_enter, writer_exit, World, Os, Outcome,
  continues, ended, ◌>>=◌, find, log, respond, respond_keep, with_lock, with_lock-continues, send,
  text, contents,
}
use gtu_cse344_system_progra.Server.Request.Read
use gtu_cse344_system_progra.Server.Request.Read.{
  opened, is_whole, Sending, all_sent, read_failed, write_failed, send_chunks, after_sending,
  send_file, read_opened, read_locked, parse_line, read_f,
}
use gtu_cse344_system_progra.Server.Request.Balance.{
  upload_balanced, download_balanced, append_balanced,
}

-- More calls than `base`, last first: an enter and the exit that goes with it, again and again.
pub data Bracketed (base : List LockCall) : List LockCall → Type 0 where
  same : Bracketed base base
  read :
      (k : ℕ) {l : List LockCall}
      → Bracketed base l
      → Bracketed base (reader_exit k ∷ reader_enter k ∷ l)
  written :
      (k : ℕ) {l : List LockCall}
      → Bracketed base l
      → Bracketed base (writer_exit k ∷ writer_enter k ∷ l)

pub Bracketed-trans :
    {a b : List LockCall} {c : List LockCall} → Bracketed a b → Bracketed b c → Bracketed a c
Bracketed-trans p same = p
Bracketed-trans p (read k q) = read k (Bracketed-trans p q)
Bracketed-trans p (written k q) = written k (Bracketed-trans p q)

pub same_as : {a b : List LockCall} → b ≡ a → Bracketed a b
same_as {a} e = subst (Bracketed a) (sym e) same

pub read_as : (k : ℕ) {a b : List LockCall} → b ≡ reader_exit k ∷ reader_enter k ∷ a → Bracketed a b
read_as k {a} e = subst (Bracketed a) (sym e) (read k same)

pub written_as :
    (k : ℕ) {a b : List LockCall} → b ≡ writer_exit k ∷ writer_enter k ∷ a → Bracketed a b
written_as k {a} e = subst (Bracketed a) (sym e) (written k same)

pub respond_keep-locks :
    (os : Os) (r : Reply) (w : World) {w' : World}
    → respond_keep os r w ≡ continues w'
    → w'.locks ≡ w.locks
unfolding respond_keep
respond_keep-locks os r w h = ground arith

-- readF of a whole file.
abbrev sending_locks : Sending → List LockCall
sending_locks (all_sent w) = w.locks
sending_locks (read_failed w) = w.locks
sending_locks (write_failed w) = w.locks

send_chunks-locks :
    (os : Os) (fuel k : ℕ) (rest : Bytes) (w : World)
    → sending_locks (send_chunks os fuel k rest w) ≡ w.locks
unfolding send_chunks
send_chunks-locks os zero k rest w = refl
send_chunks-locks os (suc fuel) k rest w =
    ground (
      arith,
      send_chunks-locks os fuel (k + 1) (drop 4096 rest) (send (contents (take 4096 rest)) w),
    )

after_sending-locks :
    (os : Os) (k : ℕ) (s : Sending) {w' : World}
    → after_sending os k s ≡ continues w'
    → w'.locks ≡ reader_exit k ∷ sending_locks s
unfolding after_sending respond
after_sending-locks os k (all_sent w) h = ground arith
after_sending-locks os k (read_failed w) h = ground arith
after_sending-locks os k (write_failed w) h = ground arith

send_file-locks :
    (os : Os) (k : ℕ) (content : Bytes) (w : World) {w' : World}
    → send_file os k content w ≡ continues w'
    → w'.locks ≡ reader_exit k ∷ w.locks
unfolding send_file
send_file-locks os k content w h =
    after_sending-locks os k (send_chunks os (suc (length content)) 0 content w) h
    ∙ ap (λ (l : List LockCall). reader_exit k ∷ l)
        (send_chunks-locks os (suc (length content)) 0 content w)

read_opened-locks :
    (os : Os) (valid : Bool) (line_number : ℤ) (k : ℕ) (o : Option Bytes) (w : World) {w' : World}
    → is_whole line_number ≡ true
    → read_opened os valid line_number k o w ≡ continues w'
    → w'.locks ≡ reader_exit k ∷ w.locks
unfolding read_opened respond
read_opened-locks os valid line_number k none w whole h = ground arith
read_opened-locks os valid line_number k (some content) w {w'} whole h =
    ground (arith, send_file-locks os k content w {w' = w'})

pub read_f-Bracketed :
    (atoi : Name → ℤ) (stale : Name) (os : Os) (file line_token : Option Name) (w : World)
    {w' : World}
    → is_whole (parse_line atoi line_token) ≡ true
    → read_f atoi stale os file line_token w ≡ continues w'
    → Bracketed w.locks w'.locks
unfolding read_f read_locked
read_f-Bracketed atoi stale os none line_token w whole h =
    let (k, v, e, g) = with_lock-continues os stale (read_locked os false stale (negsuc 0)) w h in
    read_as k (
      read_opened-locks os false (negsuc 0) k (opened os.open_file (find stale v.client_dir))
        (log (reader_enter k) v) refl g
      ∙ ap (λ (l : List LockCall). reader_exit k ∷ reader_enter k ∷ l) e)
read_f-Bracketed atoi stale os (some file) line_token w whole h =
    let n = parse_line atoi line_token in
    let (k, v, e, g) = with_lock-continues os file (read_locked os true file n) w h in
    read_as k (
      read_opened-locks os true n k (opened os.open_file (find file v.client_dir))
        (log (reader_enter k) v) whole g
      ∙ ap (λ (l : List LockCall). reader_exit k ∷ reader_enter k ∷ l) e)
