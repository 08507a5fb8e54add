-- ===== src/Server/Request/Command/Line.antt =====
-- From the line of a client to the command with its file.
use gtu_cse344_system_progra.Base.{
  Bool, not, if◌then◌else◌, ℕ, true, none, some, [], ◌∷◌, ◌++◌, ◌≡◌, refl, ap, ◌∙◌,
}
use gtu_cse344_system_progra.Server.Request.World.{ended, Bytes, World, Outcome}
use gtu_cse344_system_progra.Base.Strings.{
  codes, same_name, strtok, skip, some_token, cut, Lacks, append-Lacks, c_string-append,
  strtok_last,
}
use gtu_cse344_system_progra.Server.Sync.Table.{Name}
use gtu_cse344_system_progra.Server.Request.Read
use gtu_cse344_system_progra.Server.Request.Transfer
use gtu_cse344_system_progra.Server.Request.Command.{
  Keyword, reads, uploads, downloads, archives, Turn, next_token, command_name, keyword, perform,
  read_round, request_round,
}

-- The commands that take a file alone, or a file first.
pub data Verb : Type 0 where
  read_verb upload_verb download_verb archive_verb : Verb

abbrev pub word : Verb → Bytes
word read_verb = codes "readF"
word upload_verb = codes "upload"
word download_verb = codes "download"
word archive_verb = codes "archServer"

abbrev pub meant : Verb → Turn → Name → World → Outcome
meant read_verb t file w = Read.read_f t.atoi t.stale_name t.os (some file) none w
meant upload_verb t file w = Transfer.upload t.os (some file) w
meant download_verb t file w = Transfer.download t.os (some file) w
meant archive_verb t file w = Transfer.arch_server t.archive t.os (some file) w

abbrev keyword_of : Verb → Keyword
keyword_of read_verb = reads
keyword_of upload_verb = uploads
keyword_of download_verb = downloads
keyword_of archive_verb = archives

keyword-word : (v : Verb) (rest : Bytes) → keyword (word v ++ (b' ' ∷ rest)) ≡ (keyword_of v, rest)
unfolding keyword same_name next_token command_name strtok skip some_token cut
keyword-word read_verb rest = refl
keyword-word upload_verb rest = refl
keyword-word download_verb rest = refl
keyword-word archive_verb rest = refl

next_token_last : (c : ℕ) (s : Bytes) → Lacks b' ' (c ∷ s) → next_token (c ∷ s) ≡ (some (c ∷ s), [])
unfolding next_token
next_token_last c s h = rw (next_token, strtok_last b' ' c s h) refl

perform-meant :
    (v : Verb) (t : Turn) (c : ℕ) (s : Bytes) (w : World)
    → Lacks b' ' (c ∷ s)
    → perform t (keyword_of v) (c ∷ s) w ≡ meant v t (c ∷ s) w
unfolding perform next_token strtok skip some_token
perform-meant read_verb t c s w h =
    ap (λ r. Read.read_f t.atoi t.stale_name t.os r.0 (next_token r.1).0 w) (next_token_last c s h)
perform-meant upload_verb t c s w h = ap (λ r. Transfer.upload t.os r.0 w) (next_token_last c s h)
perform-meant download_verb t c s w h =
    ap (λ r. Transfer.download t.os r.0 w) (next_token_last c s h)
perform-meant archive_verb t c s w h =
    ap (λ r. Transfer.arch_server t.archive t.os r.0 w) (next_token_last c s h)

word-Lacks : (v : Verb) → Lacks 0 (word v)
word-Lacks read_verb = (refl, (refl, (refl, (refl, (refl, tt)))))
word-Lacks upload_verb = (refl, (refl, (refl, (refl, (refl, (refl, tt))))))
word-Lacks download_verb = (refl, (refl, (refl, (refl, (refl, (refl, (refl, (refl, tt))))))))
word-Lacks archive_verb =
    (refl, (refl, (refl, (refl, (refl, (refl, (refl, (refl, (refl, (refl, tt))))))))))

-- A line of readF, upload, download or archServer with one file name, which is not empty and has no
-- blank and no byte 0 in it, leads to that command on that file, whatever stands in the array behind
-- the line.
pub line_meant :
    (v : Verb) (t : Turn) (c : ℕ) (s junk : Bytes) (w : World)
    → t.open_read ≡ true
    → t.line ≡ some ((word v ++ (b' ' ∷ c ∷ s)) ++ (0 ∷ junk))
    → Lacks b' ' (c ∷ s)
    → Lacks 0 (c ∷ s)
    → request_round t w ≡ meant v t (c ∷ s) w
unfolding request_round read_round
line_meant v t c s junk w opens there no_blank text =
    ap (λ (b : Bool). if not b then ended w else read_round t t.line w) opens
    ∙ ap (λ l. read_round t l w) there
    ∙ ap (λ b. perform t (keyword b).0 (keyword b).1 w)
        (c_string-append (word v ++ (b' ' ∷ c ∷ s)) junk
          (append-Lacks 0 (word v) (b' ' ∷ c ∷ s) (word-Lacks v) (refl, text)))
    ∙ ap (λ (k : Keyword × Bytes). perform t k.0 k.1 w) (keyword-word v (c ∷ s))
    ∙ perform-meant v t c s w no_blank
