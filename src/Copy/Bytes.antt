-- ===== src/Copy/Bytes.antt =====
-- How `worker_function` of HW4/src/worker.c copies the content of a file.
use gtu_cse344_system_progra.Base.{
  ℕ, zero, suc, ◌+◌, ◌<◌, ◌≡◌, refl, ap, ◌∙◌, min, Bool, false, Option, none, some, List, [], ◌∷◌,
  ◌++◌, length, take, drop, take-append-drop, length-drop, arith, if◌then◌else◌,
}

-- What the calls of round `i` do: a read of what is left takes at least a byte and at most 1024, here
-- one more than `got i` where there are as many, or fails; a write takes all, or only the first bytes.
pub record Calls : Type 0 where
  pub fails : ℕ → Bool
  pub got : ℕ → ℕ
  pub writes : ℕ → Option ℕ

abbrev pub chunk : Calls → ℕ → ℕ
chunk calls i = suc (min (calls.got i) 1023)

abbrev pub written : Option ℕ → List ℕ → List ℕ
written none b = b
written (some k) b = take k b

-- The loop, from round `i`: what it writes of what is left to read. `fuel` bounds the rounds.
unfoldable pub copy_content : Calls → ℕ → ℕ → List ℕ → List ℕ
copy_content calls zero i rest = []
copy_content calls (suc fuel) i [] = []
copy_content calls (suc fuel) i (c ∷ rest) =
    let more = copy_content calls fuel (i + 1) (drop (chunk calls i) (c ∷ rest)) in
    if calls.fails i then [] else written (calls.writes i) (take (chunk calls i) (c ∷ rest)) ++ more

copies_rest :
    (calls : Calls)
    → ((i : ℕ) → calls.fails i ≡ false)
    → ((i : ℕ) → calls.writes i ≡ none)
    → (fuel i : ℕ) (rest : List ℕ) → length rest < fuel
    → copy_content calls fuel i rest ≡ rest
unfolding copy_content
copies_rest calls reads whole zero i rest lt = absurd (omega arith)
copies_rest calls reads whole (suc fuel) i [] lt = refl
copies_rest calls reads whole (suc fuel) i (c ∷ rest) lt =
    rw (reads i, whole i)
      (ap (λ b. take (chunk calls i) (c ∷ rest) ++ b)
          (copies_rest calls reads whole fuel (i + 1) (drop (chunk calls i) (c ∷ rest))
            (ground (arith, length-drop (chunk calls i) (c ∷ rest))))
        ∙ take-append-drop (chunk calls i) (c ∷ rest))

-- Where no call fails or stops short, the destination gets the bytes of the source, all and in order,
-- whatever pieces the reads return; one round for each byte and one more are enough.
pub copies_content :
    (calls : Calls) (content : List ℕ)
    → ((i : ℕ) → calls.fails i ≡ false)
    → ((i : ℕ) → calls.writes i ≡ none)
    → copy_content calls (suc (length content)) 0 content ≡ content
copies_content calls content reads whole =
    copies_rest calls reads whole (suc (length content)) 0 content (omega arith)
