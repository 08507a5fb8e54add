-- ===== src/Server/Request/Read/Lines.antt =====
-- Which line the search of readF sends.
use mathlib.Core.List.{append-nil, append_assoc}
use gtu_cse344_system_progra.Base.{
  ℕ, zero, suc, ◌+◌, ◌<◌, ◌≡◌, ap, sym, ◌∙◌, false, ◌==◌, List, [], ◌∷◌, ◌++◌, length, get_or,
  arith, if◌then◌else◌,
}
use gtu_cse344_system_progra.Base.Int.{ℤ, pos}
use gtu_cse344_system_progra.Server.Request.World.{Bytes}
use gtu_cse344_system_progra.Server.Request.Read.{is_line, hit, end_at, find_line}

-- The bytes hold no newline.
abbrev pub OneLine : Bytes → Type 0
OneLine [] = Unit
OneLine (c ∷ l) = ((c == b'\n') ≡ false) × OneLine l

abbrev pub AllOneLine : List Bytes → Type 0
AllOneLine [] = Unit
AllOneLine (l ∷ ls) = OneLine l × AllOneLine ls

-- Lines as a file has them, each with its newline.
abbrev pub join_lines : List Bytes → Bytes
join_lines [] = []
join_lines (l ∷ ls) = l ++ (b'\n' ∷ join_lines ls)

find_line_other :
    (t : ℤ) (current : ℕ) (line : Bytes) (c : ℕ) (rest : Bytes)
    → (c == b'\n') ≡ false
    → find_line t current line (c ∷ rest) ≡ find_line t current (line ++ (c ∷ [])) rest
unfolding find_line
find_line_other t current line c rest h = ground arith

find_line_walk :
    (t : ℤ) (current : ℕ) (line l rest : Bytes)
    → OneLine l
    → find_line t current line (l ++ rest) ≡ find_line t current (line ++ l) rest
unfolding find_line
find_line_walk t current line [] rest h =
    ap (λ b. find_line t current b rest) (sym (append-nil line))
find_line_walk t current line (c ∷ l) rest h =
    find_line_other t current line c (l ++ rest) h.0
    ∙ find_line_walk t current (line ++ (c ∷ [])) l rest h.1
    ∙ ap (λ b. find_line t current b rest) (append_assoc line (c ∷ []) l)

find_line_end :
    (t : ℤ) (current : ℕ) (line rest : Bytes)
    → find_line t current line (b'\n' ∷ rest) ≡ (
        if is_line t current then hit (line ++ (b'\n' ∷ [])) else find_line t (current + 1) [] rest)
unfolding find_line
find_line_end t current line rest = ground arith

find_line_step :
    (l : Bytes) (ls : List Bytes) (tail : Bytes) (t : ℤ) (current : ℕ)
    → OneLine l
    → find_line t current [] (join_lines (l ∷ ls) ++ tail) ≡ (
        if is_line t current
        then hit (l ++ (b'\n' ∷ []))
        else find_line t (current + 1) [] (join_lines ls ++ tail))
find_line_step l ls tail t current h =
    ap (find_line t current []) (append_assoc l (b'\n' ∷ join_lines ls) tail)
    ∙ find_line_walk t current [] l (b'\n' ∷ (join_lines ls ++ tail)) h
    ∙ find_line_end t current l (join_lines ls ++ tail)

-- Asked for one of the lines that end in a newline, counted from `current`, the search gives that
-- line with its newline.
pub find_line-hit :
    (ls : List Bytes) (tail : Bytes) (current j : ℕ)
    → AllOneLine ls
    → j < length ls
    → find_line (pos (current + j)) current [] (join_lines ls ++ tail)
      ≡ hit (get_or ls j [] ++ (b'\n' ∷ []))
find_line-hit [] tail current j h lt = absurd (omega arith)
find_line-hit (l ∷ ls) tail current zero h lt =
    find_line_step l ls tail (pos (current + 0)) current h.0 ∙ ground arith
find_line-hit (l ∷ ls) tail current (suc j) h lt =
    find_line_step l ls tail (pos (current + suc j)) current h.0
    ∙ ground arith
    ∙ ap (λ k. find_line (pos k) (current + 1) [] (join_lines ls ++ tail)) shift
    ∙ find_line-hit ls tail (current + 1) j h.1 (omega arith)
  where
    shift : current + suc j ≡ current + 1 + j
    shift = omega arith

-- Asked for another line, the search ends behind the last newline.
pub find_line_miss :
    (ls : List Bytes) (tail : Bytes) (t : ℤ) (current : ℕ)
    → AllOneLine ls
    → OneLine tail
    → ((j : ℕ) → j < length ls → is_line t (current + j) ≡ false)
    → find_line t current [] (join_lines ls ++ tail) ≡ end_at (current + length ls)
unfolding find_line
find_line_miss [] tail t current h ht miss =
    ap (find_line t current []) (sym (append-nil tail))
    ∙ find_line_walk t current [] tail [] ht
    ∙ ap end_at (omega arith)
find_line_miss (l ∷ ls) tail t current h ht miss =
    find_line_step l ls tail t current h.0
    ∙ rw first (find_line_miss ls tail t (current + 1) h.1 ht later ∙ ap end_at (omega arith))
  where
    first : is_line t current ≡ false
    first = ap (is_line t) (omega arith) ∙ miss 0 (omega arith)

    later : (j : ℕ) → j < length ls → is_line t (current + 1 + j) ≡ false
    later j lt = ap (is_line t) (omega arith) ∙ miss (suc j) (omega arith)
