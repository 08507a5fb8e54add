-- ===== src/Grades/Command/Letters.antt =====
-- The grades and the case of letters in the commands of HW1/src/main.c, told by a list and by relations
-- of letters, beside the tests and loops of the code.
use gtu_cse344_system_progra.Base.{◌⊎◌}
use gtu_cse344_system_progra.Base.{
  ℕ, ◌+◌, ◌≤◌, ◌<◌, ◌≡◌, refl, ap₂, Bool, true, false, List, [], ◌∷◌, leb, ◌&&◌, ◌||◌, map, arith,
  inl, inr, Bool-cases,
}
use gtu_cse344_system_progra.Base.Strings.{same_name, same_name_eq, codes}
use gtu_cse344_system_progra.Grades.Shell.{Bytes}
use gtu_cse344_system_progra.Grades.Tokens.{to_lower, to_upper, valid_grade}

abbrev pub grades : List Bytes
grades =
    codes "AA"
    ∷ codes "BA"
    ∷ codes "BB"
    ∷ codes "CB"
    ∷ codes "CC"
    ∷ codes "DC"
    ∷ codes "DD"
    ∷ codes "FF"
    ∷ codes "NA"
    ∷ codes "VF"
    ∷ []

abbrev pub IsAmong : Bytes → List Bytes → Type 0
IsAmong g [] = ⊥
IsAmong g (x ∷ xs) = (g ≡ x) ⊎ IsAmong g xs

-- The typed letters are those of the capitals, each as a capital or as a small letter, which is 32
-- more.
abbrev pub Spells : Bytes → Bytes → Type 0
Spells [] [] = Unit
Spells [] (u ∷ g) = ⊥
Spells (c ∷ t) [] = ⊥
Spells (c ∷ t) (u ∷ g) = ((c ≡ u) ⊎ (c ≡ u + 32)) × Spells t g

-- The second is the first with a small letter for each capital, and else the same bytes.
abbrev pub Lowers : ℕ → ℕ → Type 0
Lowers c l = (b'A' ≤ c) × (c ≤ b'Z') × (l ≡ c + 32) ⊎ ((c < b'A') ⊎ (b'Z' < c)) × (l ≡ c)

abbrev pub InLower : Bytes → Bytes → Type 0
InLower [] [] = Unit
InLower [] (l ∷ n) = ⊥
InLower (c ∷ t) [] = ⊥
InLower (c ∷ t) (l ∷ n) = Lowers c l × InLower t n

to_lower-Lowers : (c : ℕ) → Lowers c (to_lower c)
unfolding to_lower
to_lower-Lowers c = ground arith

pub to_lower-InLower : (t : Bytes) → InLower t (map to_lower t)
to_lower-InLower [] = tt
to_lower-InLower (c ∷ t) = (to_lower-Lowers c, to_lower-InLower t)

to_upper-letter : (c : ℕ) → (c ≡ to_upper c) ⊎ (c ≡ to_upper c + 32)
unfolding to_upper
to_upper-letter c = ground arith

pub Spells-to_upper : (t : Bytes) → Spells t (map to_upper t)
Spells-to_upper [] = tt
Spells-to_upper (c ∷ t) = (to_upper-letter c, Spells-to_upper t)

abbrev all_capital : Bytes → Bool
all_capital [] = true
all_capital (u ∷ g) = (leb b'A' u && leb u b'Z') && all_capital g

to_upper-capital :
    (c u : ℕ) → (leb b'A' u && leb u b'Z') ≡ true → (c ≡ u) ⊎ (c ≡ u + 32) → to_upper c ≡ u
unfolding to_upper
to_upper-capital c u h (inl e) = ground arith
to_upper-capital c u h (inr e) = ground arith

to_upper-Spells : (t g : Bytes) → all_capital g ≡ true → Spells t g → map to_upper t ≡ g
to_upper-Spells [] [] h s = refl
to_upper-Spells [] (u ∷ g) h s = absurd s
to_upper-Spells (c ∷ t) [] h s = absurd s
to_upper-Spells (c ∷ t) (u ∷ g) h (e, s) =
    ap₂ ◌∷◌ (to_upper-capital c u (ground arith) e) (to_upper-Spells t g (ground arith) s)

abbrev all_grades : List Bytes → Bool
all_grades [] = true
all_grades (g ∷ gs) = (all_capital g && valid_grade g) && all_grades gs

among-all :
    (g : Bytes) (gs : List Bytes)
    → all_grades gs ≡ true
    → IsAmong g gs
    → (all_capital g ≡ true) × (valid_grade g ≡ true)
among-all g [] h m = absurd m
among-all g (x ∷ xs) h (inl e) = rw e (ground arith, ground arith)
among-all g (x ∷ xs) h (inr m) = among-all g xs (ground arith) m

-- The ten grades are valid, and consist of capitals.
grades-valid : all_grades grades ≡ true
unfolding valid_grade same_name
grades-valid = refl

pub valid_grade-spelled :
    (t g : Bytes) → IsAmong g grades → Spells t g → valid_grade (map to_upper t) ≡ true
valid_grade-spelled t g m s =
    let (capital, valid) = among-all g grades grades-valid m in
    rw (to_upper-Spells t g capital s) valid

abbrev listed : Bytes → List Bytes → Bool
listed g [] = false
listed g (x ∷ xs) = same_name g x || listed g xs

listed-IsAmong : (g : Bytes) (gs : List Bytes) → listed g gs ≡ true → IsAmong g gs
listed-IsAmong g [] h = cc
listed-IsAmong g (x ∷ xs) h = elim (Bool-cases (same_name g x)) [
  | inl e ↦ inl (same_name_eq g x e)
  | inr e ↦ inr (listed-IsAmong g xs (ground arith))
]

-- No other grade is valid.
pub valid_grade-IsAmong : (g : Bytes) → valid_grade g ≡ true → IsAmong g grades
unfolding valid_grade
valid_grade-IsAmong g h = listed-IsAmong g grades (ground arith)
