-- ===== src/Server/Client/Cleanup.antt =====
-- What a client leaves behind.
use gtu_cse344_system_progra.Base.Strings.{same_name, codes}
use gtu_cse344_system_progra.Base.{
  ◌==◌, ◌&&◌, ◌||◌, ℕ, ◌≡◌, refl, Bool, true, false, Bool-cases, inl, inr, ◌⊎◌, Option, none, some,
  List, [], ◌∷◌, if◌then◌else◌, not,
}
use gtu_cse344_system_progra.Server.Client.{
  Bytes, Client, Next, goes_on, ends, Setup, Round, unlink, answered, try_connect, connect, strip,
  answer_round, send_round, line_round, round, and_then, loop, no_client, client_main,
}

-- Some round finds the end of the input.
abbrev pub HasEnd : List Round → Type 0
HasEnd [] = ⊥
HasEnd (r ∷ rs) = (r.line ≡ none) ⊎ HasEnd rs

-- Where the client has ended its FIFO is gone, or `e` holds.
abbrev pub Cleans : Type 0 → Next → Type 0
Cleans e (goes_on c) = Unit
Cleans e (ends status c) = (c.has_fifo ≡ false) ⊎ e

Cleans-if :
    (e : Type 0) (b : Bool) (x y : Next) → Cleans e x → Cleans e y → Cleans e (if b then x else y)
Cleans-if e true x y h k = h
Cleans-if e false x y h k = k

Cleans-and_then :
    (e : Type 0) (x : Next) (more : Client → Next)
    → Cleans e x
    → ((c : Client) → Cleans e (more c))
    → Cleans e (and_then x more)
Cleans-and_then e (goes_on c) more h k = k c
Cleans-and_then e (ends status c) more h k = h

Cleans-weaken : (d e : Type 0) (x : Next) → (d → e) → Cleans d x → Cleans e x
Cleans-weaken d e (goes_on c) f h = h
Cleans-weaken d e (ends status c) f (inl h) = inl h
Cleans-weaken d e (ends status c) f (inr h) = inr (f h)

Cleans-answered : (e : Type 0) (o : Option ℕ) (c : Client) → Cleans e (answered o c)
Cleans-answered e none c = inl refl
Cleans-answered e (some full) c =
    Cleans-if e (full == 1) (ends false (unlink c)) (goes_on c) (inl refl) tt

Cleans-try_connect : (e : Type 0) (setup : Setup) (c : Client) → Cleans e (try_connect setup c)
unfolding try_connect
Cleans-try_connect e setup c =
    elim (Bool-cases (same_name setup.connection_type (codes "tryConnect"))) [
      | inr h ↦ rw h tt
      | inl h ↦ elim (Bool-cases setup.open_answer) [
        | inr k ↦ rw (h, k) (inl refl)
        | inl k ↦ rw (h, k) (Cleans-answered e setup.full c)
      ]
    ]

Cleans-connect : (e : Type 0) (setup : Setup) → Cleans e (connect setup no_client)
unfolding connect
Cleans-connect e setup =
    Cleans-if e
      (not (setup.arguments == 3)
        || not (same_name setup.connection_type (codes "Connect"))
          && not (same_name setup.connection_type (codes "tryConnect")))
      (ends false no_client) after (inl refl)
      (elim (Bool-cases setup.make_fifo) [
        | inr h ↦ rw h (inl refl)
        | inl h ↦ elim (Bool-cases setup.open_server) [
          | inr k ↦ rw (h, k) (inl refl)
          | inl k ↦ elim (Bool-cases setup.write_server) [
            | inr l ↦ rw (h, k, l) (inl refl)
            | inl l ↦ rw (h, k, l) (Cleans-try_connect e setup made)
          ]
        ]
      ])
  where
    made : Client
    made = record no_client { has_fifo = true }

    after : Next
    after =
        if not setup.make_fifo
        then ends false no_client
        else if not setup.open_server
        then ends false (unlink made)
        else if not setup.write_server
        then ends false (unlink made)
        else try_connect setup made

Cleans-send_round :
    (e : Type 0) (r : Round) (command : Bytes) (c : Client) → Cleans e (send_round r command c)
unfolding send_round answer_round
Cleans-send_round e r command c = elim (Bool-cases r.open_write) [
  | inr h ↦ rw h (inl refl)
  | inl h ↦ elim (Bool-cases r.write) [
    | inr k ↦ rw (h, k) (inl refl)
    | inl k ↦ elim (Bool-cases (same_name command (codes "quit"))) [
      | inl l ↦ rw (h, k, l) (inl refl)
      | inr l ↦ elim (Bool-cases r.open_read) [
        | inr m ↦ rw (h, k, l, m) (inl refl)
        | inl m ↦ rw (h, k, l, m) tt
      ]
    ]
  ]
]

Cleans-line_round :
    (r : Round) (o : Option Bytes) (c : Client) → Cleans (o ≡ none) (line_round r o c)
unfolding line_round
Cleans-line_round r none c = inr refl
Cleans-line_round r (some line) c = elim (Bool-cases r.server_still) [
  | inr h ↦ rw h (inl refl)
  | inl h ↦ rw h (Cleans-send_round (some line ≡ none) r (strip line) c)
]

Cleans-round : (r : Round) (c : Client) → Cleans (r.line ≡ none) (round r c)
unfolding round
Cleans-round r c = elim (Bool-cases r.server_there) [
  | inr h ↦ rw h (inl refl)
  | inl h ↦ rw h (Cleans-line_round r r.line c)
]

Cleans-loop : (rs : List Round) (c : Client) → Cleans (HasEnd rs) (loop rs c)
unfolding loop
Cleans-loop [] c = tt
Cleans-loop (r ∷ rs) c =
    Cleans-and_then (HasEnd (r ∷ rs)) (round r c) (loop rs)
      (Cleans-weaken (r.line ≡ none) (HasEnd (r ∷ rs)) (round r c) inl (Cleans-round r c))
      (λ c'. Cleans-weaken (HasEnd rs) (HasEnd (r ∷ rs)) (loop rs c') inr (Cleans-loop rs c'))

-- Whichever call fails and whatever the server answers, when a client ends it has taken its FIFO away,
-- unless the end of its input came in some round.
pub client_main-Cleans :
    (setup : Setup) (rs : List Round) → Cleans (HasEnd rs) (client_main setup rs)
unfolding client_main
client_main-Cleans setup rs =
    Cleans-and_then (HasEnd rs) (connect setup no_client) (loop rs)
      (Cleans-connect (HasEnd rs) setup) (Cleans-loop rs)
