-- ===== src/Server/Request/Read/Whole.antt =====
-- What readF answers to a request for a whole file.
use mathlib.Core.List.{append-nil, append_assoc}
use gtu_cse344_system_progra.Base.{
  ℕ, zero, suc, ◌+◌, ◌<◌, ◌≡◌, refl, ap, sym, ◌∙◌, true, List, [], ◌∷◌, ◌++◌, length, take, drop,
  take-append-drop, length-drop, arith, ◌==◌, Bool-cases, inl, inr,
}
use gtu_cse344_system_progra.Server.Request.World.{
  Bytes, Reply, text, contents, uploaded, downloaded, World, Os, continues, reader_exit, log, send,
}
use gtu_cse344_system_progra.Server.Request.Read.{all_sent, send_chunks, after_sending, send_file}

-- The bytes of files among the replies, in the order in which they were sent.
abbrev pub sent : List Reply → Bytes
sent [] = []
sent (contents b ∷ rs) = sent rs ++ b
sent (text s ∷ rs) = sent rs
sent (uploaded n ∷ rs) = sent rs
sent (downloaded n ∷ rs) = sent rs

nil_of_length : (b : Bytes) → (length b == 0) ≡ true → b ≡ []
nil_of_length [] h = refl
nil_of_length (c ∷ b) h = absurd (ground arith)

send_chunks_all :
    (os : Os)
    → ((k : ℕ) → os.read_chunk k ≡ true)
    → ((k : ℕ) → os.write_chunk k ≡ true)
    → (fuel k : ℕ) (rest : Bytes) (w : World) → length rest < fuel
    → (w' : World) × (send_chunks os fuel k rest w ≡ all_sent w')
      × (sent w'.replies ≡ sent w.replies ++ rest)
      × (w'.locks ≡ w.locks)
unfolding send_chunks
send_chunks_all os reads writes zero k rest w lt = absurd (omega arith)
send_chunks_all os reads writes (suc fuel) k rest w lt = elim (Bool-cases (length rest == 0)) [
  | inl e ↦ (
    w,
    rw (reads k, e),
    sym (append-nil (sent w.replies)) ∙ ap (λ b. sent w.replies ++ b) (sym (nil_of_length rest e)),
    refl,
  )
  | inr e ↦
      let next = send (contents (take 4096 rest)) w in
      let (w', runs, all, same) =
        send_chunks_all os reads writes fuel (k + 1) (drop 4096 rest) next
          (ground (arith, length-drop 4096 rest)) in
      (
        w',
        rw (reads k, e, writes k) runs,
        all
            ∙ append_assoc (sent w.replies) (take 4096 rest) (drop 4096 rest)
            ∙ ap (λ b. sent w.replies ++ b) (take-append-drop 4096 rest),
        same,
      )
]

-- Where no call fails, readF without a line number sends the bytes of the file, all and in order,
-- and leaves the lock once.
pub send_file_all :
    (os : Os) (k : ℕ) (content : Bytes) (w : World)
    → ((i : ℕ) → os.read_chunk i ≡ true)
    → ((i : ℕ) → os.write_chunk i ≡ true)
    → (w' : World) × (send_file os k content w ≡ continues w')
      × (sent w'.replies ≡ sent w.replies ++ content)
      × (w'.locks ≡ reader_exit k ∷ w.locks)
unfolding send_file
send_file_all os k content w reads writes =
    let (w', runs, all, same) =
      send_chunks_all os reads writes (suc (length content)) 0 content w (omega arith) in
    (log (reader_exit k) w', ap (after_sending os k) runs, all, ap (◌∷◌ (reader_exit k)) same)
