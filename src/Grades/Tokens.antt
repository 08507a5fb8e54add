-- ===== src/Grades/Tokens.antt =====
-- How the commands of HW1/src/main.c are cut into tokens, and what is made of a token.
use gtu_cse344_system_progra.Base.{
  ℕ, zero, suc, ◌+◌, ◌-◌, ◌*◌, Bool, true, false, ◌&&◌, ◌||◌, Option, none, some, [], ◌∷◌, ◌==◌,
  leb, if◌then◌else◌,
}
use gtu_cse344_system_progra.Base.Int.{ℤ, pos, ◌-ℤ◌}
use gtu_cse344_system_progra.Base.Strings.{same_name, strtok, codes}
use gtu_cse344_system_progra.Grades.Shell.{Bytes}

abbrev pub quote : ℕ
quote = 34

-- The token of call `n` of `strtok`, from 0, on what a first call has left.
unfoldable pub nth_token : ℕ → Bytes → Option Bytes
unfolding strtok
nth_token zero s = elim (strtok quote s) [ none ↦ none | some (token, rest) ↦ some token ]
nth_token (suc n) s = elim (strtok quote s) [ none ↦ none | some (token, rest) ↦ nth_token n rest ]

-- `tolower` and `toupper` of the C locale.
unfoldable pub to_lower : ℕ → ℕ
to_lower c = if leb b'A' c && leb c b'Z' then c + 32 else c

unfoldable pub to_upper : ℕ → ℕ
to_upper c = if leb b'a' c && leb c b'z' then c - 32 else c

-- `atoi`, where the number is in range.
abbrev is_space : ℕ → Bool
is_space c = c == b' ' || leb 9 c && leb c 13

unfoldable pub digits : ℕ → Bytes → ℕ
digits n [] = n
digits n (c ∷ s) = elim (leb b'0' c && leb c b'9') [
  | true ↦ digits (n * 10 + (c - b'0')) s
  | false ↦ n
]

unfoldable pub signed : Bytes → ℤ
unfolding digits ◌-ℤ◌
signed [] = pos 0
signed (c ∷ s) =
    if c == b'-'
    then pos 0 -ℤ pos (digits 0 s)
    else if c == b'+'
    then pos (digits 0 s)
    else pos (digits 0 (c ∷ s))

unfoldable pub atoi : Bytes → ℤ
unfolding signed
atoi [] = pos 0
atoi (c ∷ s) = elim (is_space c) [ true ↦ atoi s | false ↦ signed (c ∷ s) ]

-- The grades that `main` accepts.
unfoldable pub valid_grade : Bytes → Bool
unfolding same_name
valid_grade g =
    same_name g (codes "AA")
    || same_name g (codes "BA")
    || same_name g (codes "BB")
    || same_name g (codes "CB")
    || same_name g (codes "CC")
    || same_name g (codes "DC")
    || same_name g (codes "DD")
    || same_name g (codes "FF")
    || same_name g (codes "NA")
    || same_name g (codes "VF")
