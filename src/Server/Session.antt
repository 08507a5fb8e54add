-- ===== src/Server/Session.antt =====
-- A session: the loop of the client (Midterm/src/client.c) sends its lines through the client's FIFO
-- to the loop of `request` (Midterm/src/server.c), where every call of the client succeeds. `fgets`
-- gives at most 255 bytes, so that a command and its byte 0 fit the array of 256 of the server.
mod Tests
use gtu_cse344_system_progra.Base.{◌<◌}
use gtu_cse344_system_progra.Base.{length}
use mathlib.Core.Path.{ap₂, fun_ext}
use mathlib.Core.List.{append-nil, append_assoc}
use gtu_cse344_system_progra.Base.{
  ℕ, ◌≡◌, refl, ap, ◌∙◌, true, Bool-cases, inl, inr, some, List, [], ◌∷◌, ◌++◌, map, ◌==◌,
  if◌then◌else◌,
}
use gtu_cse344_system_progra.Base.Strings.{codes, same_name, c_string, Lacks, c_string-append}
use gtu_cse344_system_progra.Server.Request.World.{Bytes, World, Outcome, continues, ◌>>=◌}
use gtu_cse344_system_progra.Server.Request.Command.{
  Turn, keyword, perform, read_round, request_round, request,
}
use gtu_cse344_system_progra.Server.Client
use gtu_cse344_system_progra.Server.Client.{
  Round, goes_on, ends, strip, show_pieces, answer_round, send_round, line_round, loop,
}

-- A command that the user types, without the newline behind it, and the pieces in which the answer
-- comes.
abbrev pub Entry : Type 0
Entry = Bytes × List Bytes

abbrev pub well : Entry → Round
well (command, pieces) = record {
  server_there = true;
  line = some (command ++ (b'\n' ∷ []));
  server_still = true;
  open_write = true;
  write = true;
  open_read = true;
  pieces = pieces;
}

-- The commands of a session, up to `quit`.
abbrev pub commands : List Entry → List Bytes
commands [] = []
commands ((command, pieces) ∷ es) =
    if same_name command (codes "quit") then command ∷ [] else command ∷ commands es

abbrev pub sent_by : Client.Next → List Bytes
sent_by (goes_on c) = c.sent
sent_by (ends status c) = c.sent

abbrev pub rev_onto : List Bytes → List Bytes → List Bytes
rev_onto [] done = done
rev_onto (x ∷ xs) done = rev_onto xs (x ∷ done)

abbrev pub with_end : Bytes → Bytes
with_end c = c ++ (0 ∷ [])

-- What the server's turns meet when the FIFO brings them the messages, each with what stands in the
-- array behind it.
abbrev pub feed : List Bytes → List (Turn × Bytes) → List Turn
feed [] ts = []
feed (m ∷ ms) [] = []
feed (m ∷ ms) ((t, junk) ∷ ts) = record t { open_read = true; line = some (m ++ junk) } ∷ feed ms ts

-- What the commands mean, one after the other.
abbrev pub obey : List Bytes → List (Turn × Bytes) → World → Outcome
obey [] ts w = continues w
obey (c ∷ cs) [] w = continues w
obey (c ∷ cs) ((t, junk) ∷ ts) w =
    perform (record t { open_read = true; line = some (with_end c ++ junk) }) (keyword c).0
      (keyword c).1 w
    >>= obey cs ts

strip-append : (c : Bytes) → strip (c ++ (b'\n' ∷ [])) ≡ c
unfolding strip
strip-append [] = refl
strip-append (a ∷ []) = refl
strip-append (a ∷ b ∷ c) = ap (λ d. a ∷ d) (strip-append (b ∷ c))

show_pieces-sent : (ps : List Bytes) (c : Client.Client) → (show_pieces ps c).sent ≡ c.sent
unfolding show_pieces
show_pieces-sent [] c = refl
show_pieces-sent (p ∷ ps) c = show_pieces-sent ps (record c { shown = c_string p ∷ c.shown })

loop-sent :
    (es : List Entry) (c : Client.Client)
    → sent_by (loop (map well es) c) ≡ rev_onto (map with_end (commands es)) c.sent
unfolding loop Client.round line_round send_round answer_round
loop-sent [] c = refl
loop-sent ((command, pieces) ∷ es) c =
    let c' : Client.Client = record c { sent = with_end command ∷ c.sent } in
    elim (Bool-cases (same_name command (codes "quit"))) [
      | inl e ↦ rw (strip-append command, e) refl
      | inr e ↦
          rw (strip-append command, e)
            (loop-sent es (show_pieces pieces c')
              ∙ ap (rev_onto (map with_end (commands es))) (show_pieces-sent pieces c'))
    ]

rev_onto_twice : (xs ys zs : List Bytes) → rev_onto (rev_onto xs ys) zs ≡ rev_onto ys (xs ++ zs)
rev_onto_twice [] ys zs = refl
rev_onto_twice (x ∷ xs) ys zs = rev_onto_twice xs (x ∷ ys) zs

-- No byte 0 is in any of them.
abbrev AreTexts : List Bytes → Type 0
AreTexts [] = Unit
AreTexts (c ∷ cs) = Lacks 0 c × AreTexts cs

-- Commands without a byte 0 or a newline, which `fgets` reads in one go: a line has at most 255 bytes.
abbrev pub AreTyped : List Entry → Type 0
AreTyped [] = Unit
AreTyped ((command, pieces) ∷ es) =
    Lacks 0 command × Lacks b'\n' command × length command < 255 × AreTyped es

commands-AreTexts : (es : List Entry) → AreTyped es → AreTexts (commands es)
commands-AreTexts [] h = tt
commands-AreTexts ((command, pieces) ∷ es) (h, _, _, k) =
    elim (Bool-cases (same_name command (codes "quit"))) [
      | inl e ↦ rw e (h, tt)
      | inr e ↦ rw e (h, commands-AreTexts es k)
    ]

c_string-with_end : (c junk : Bytes) → Lacks 0 c → c_string (with_end c ++ junk) ≡ c
c_string-with_end c junk h = ap c_string (append_assoc c (0 ∷ []) junk) ∙ c_string-append c junk h

-- One round of the server for one message.
request_round-with_end :
    (t : Turn) (c junk : Bytes) (w : World)
    → Lacks 0 c
    → let u = record t { open_read = true; line = some (with_end c ++ junk) } in
      request_round u w ≡ perform u (keyword c).0 (keyword c).1 w
unfolding request_round read_round
request_round-with_end t c junk w h =
    ap
      (λ (b : Bytes).
        perform (record t { open_read = true; line = some (with_end c ++ junk) }) (keyword b).0
          (keyword b).1 w)
      (c_string-with_end c junk h)

request-obey :
    (cs : List Bytes) (ts : List (Turn × Bytes)) (w : World)
    → AreTexts cs
    → request (feed (map with_end cs) ts) w ≡ obey cs ts w
unfolding request
request-obey [] ts w h = refl
request-obey (c ∷ cs) [] w h = refl
request-obey (c ∷ cs) ((t, junk) ∷ ts) w (h, k) =
    ap₂ (λ (o : Outcome) (more : World → Outcome). o >>= more) (request_round-with_end t c junk w h)
      (fun_ext (λ v. request-obey cs ts v k))

abbrev pub fresh : Client.Client
fresh = record { has_fifo = true; sent = []; shown = [] }

-- Whatever commands a client types, each with a newline behind it, with no byte 0 or newline in it
-- and shorter than 255 bytes, and whatever stands in the server's array behind each message: where no
-- call of the client fails, and the server opens the FIFO and reads each message, the loop of
-- `request` does with what the client has sent exactly what the typed commands mean, without the
-- newline and in that order, up to the first `quit`, and nothing else.
pub session_obeyed :
    (es : List Entry) (ts : List (Turn × Bytes)) (w : World)
    → AreTyped es
    → request (feed (rev_onto (sent_by (loop (map well es) fresh)) []) ts) w
      ≡ obey (commands es) ts w
session_obeyed es ts w h =
    ap (λ (ms : List Bytes). request (feed ms ts) w)
      (ap (λ (ms : List Bytes). rev_onto ms []) (loop-sent es fresh)
        ∙ rev_onto_twice (map with_end (commands es)) [] []
        ∙ append-nil (map with_end (commands es)))
    ∙ request-obey (commands es) ts w (commands-AreTexts es h)
