-- ===== src/Base/Strings.antt =====
-- What the programs use of the strings of the C library. A string is the list of its bytes.
use native.Mathlib.Omega.{arith}
use mathlib.Core.Path.{◌≡◌, refl}
use mathlib.Core.Bool.{Bool, true, false, ◌&&◌}
use mathlib.Core.Option.{Option, none, some}
use mathlib.Core.List.{List, [], ◌∷◌, ◌++◌}
use Prim.Native.Nat.{ℕ}
use Prim.Native.Char.{code}
use Prim.Native.String.{String}
use gtu_cse344_system_progra.Base.Tests.{◌==◌}

-- The bytes of a text.
abbrev pub codes : String → List ℕ
codes String.[] = []
codes (String.◌∷◌ c s) = code c ∷ codes s

-- `strcmp(a, b) == 0`
unfoldable pub same_name : List ℕ → List ℕ → Bool
same_name [] [] = true
same_name [] (b ∷ bs) = false
same_name (a ∷ r) [] = false
same_name (a ∷ r) (b ∷ bs) = a == b && same_name r bs

pub same_name_self : (n : List ℕ) → same_name n n ≡ true
unfolding same_name
same_name_self [] = refl
same_name_self (a ∷ r) = ground (arith, same_name_self r)

pub same_name_eq : (a b : List ℕ) → same_name a b ≡ true → a ≡ b
unfolding same_name
same_name_eq [] [] h = refl
same_name_eq [] (y ∷ b) h = cc
same_name_eq (x ∷ a) [] h = cc
same_name_eq (x ∷ a) (y ∷ b) h = ground (arith, same_name_eq a b)

-- The string that an array of bytes holds: what stands before its first 0.
unfoldable pub c_string : List ℕ → List ℕ
c_string [] = []
c_string (c ∷ s) = elim (c == 0) [ true ↦ [] | false ↦ c ∷ c_string s ]

-- `strtok` with one delimiter: `skip` passes over the delimiters in front, and `cut` ends the token
-- at the next one. What is left is where the next call goes on.
unfoldable pub skip : ℕ → List ℕ → List ℕ
skip d [] = []
skip d (c ∷ s) = elim (c == d) [ true ↦ skip d s | false ↦ c ∷ s ]

unfoldable pub cut : ℕ → List ℕ → List ℕ × List ℕ
cut d [] = ([], [])
cut d (c ∷ s) = elim (c == d) [
  | true ↦ ([], s)
  | false ↦ let (token, rest) = cut d s in (c ∷ token, rest)
]

unfoldable pub some_token : ℕ → List ℕ → Option (List ℕ × List ℕ)
unfolding cut
some_token d [] = none
some_token d (c ∷ s) = some (cut d (c ∷ s))

unfoldable pub strtok : ℕ → List ℕ → Option (List ℕ × List ℕ)
unfolding skip some_token
strtok d s = some_token d (skip d s)

-- No byte of the string is `d`.
abbrev pub Lacks : ℕ → List ℕ → Type 0
Lacks d [] = Unit
Lacks d (c ∷ s) = ((c == d) ≡ false) × Lacks d s

pub append-Lacks : (d : ℕ) (a b : List ℕ) → Lacks d a → Lacks d b → Lacks d (a ++ b)
append-Lacks d [] b h k = k
append-Lacks d (c ∷ a) b h k = (h.0, append-Lacks d a b h.1 k)

pub c_string-Lacks : (s : List ℕ) → Lacks 0 s → c_string s ≡ s
unfolding c_string
c_string-Lacks [] h = refl
c_string-Lacks (c ∷ s) h = ground (arith, c_string-Lacks s h.1)

pub c_string-append : (s rest : List ℕ) → Lacks 0 s → c_string (s ++ (0 ∷ rest)) ≡ s
unfolding c_string
c_string-append [] rest h = refl
c_string-append (c ∷ s) rest h = ground (arith, c_string-append s rest h.1)

pub cut-Lacks : (d : ℕ) (s : List ℕ) → Lacks d s → cut d s ≡ (s, [])
unfolding cut
cut-Lacks d [] h = refl
cut-Lacks d (c ∷ s) h = ground (arith, cut-Lacks d s h.1)

pub cut-append :
    (d : ℕ) (token rest : List ℕ) → Lacks d token → cut d (token ++ (d ∷ rest)) ≡ (token, rest)
unfolding cut
cut-append d [] rest h = ground arith
cut-append d (c ∷ token) rest h = ground (arith, cut-append d token rest h.1)

pub strtok_next :
    (d c : ℕ) (token rest : List ℕ)
    → Lacks d (c ∷ token)
    → strtok d ((c ∷ token) ++ (d ∷ rest)) ≡ some (c ∷ token, rest)
unfolding strtok
strtok_next d c token rest h = ground (arith, cut-append d (c ∷ token) rest h)

pub strtok_last :
    (d c : ℕ) (token : List ℕ) → Lacks d (c ∷ token) → strtok d (c ∷ token) ≡ some (c ∷ token, [])
unfolding strtok
strtok_last d c token h = ground (arith, cut-Lacks d (c ∷ token) h)
