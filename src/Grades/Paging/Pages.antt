-- ===== src/Grades/Paging/Pages.antt =====
-- Which lines of a file a page shows.
use gtu_cse344_system_progra.Base.{
  Bool, not, ℕ, zero, suc, ◌+◌, ◌*◌, ◌<◌, ◌≤◌, ◌≡◌, refl, ap, ◌∙◌, true, List, [], ◌∷◌, ◌++◌, ltb,
  length, take, drop, arith,
}
use gtu_cse344_system_progra.Base.Int.{ℤ, pos, ◌*ℤ◌, ◌-ℤ◌, ltb_ℤ}
use gtu_cse344_system_progra.Base.Strings.{Lacks}
use gtu_cse344_system_progra.Grades.Shell.{Bytes}
use gtu_cse344_system_progra.Grades.Paging.{
  counted, print_piece, print_pieces, first_part, page_part,
}
use gtu_cse344_system_progra.Grades.Paging.Flat.{print_piece_past, print_pieces_flat}

-- A file of lines.
abbrev pub text : List Bytes → Bytes
text [] = []
text (l ∷ ls) = l ++ (b'\n' ∷ text ls)

abbrev pub AreLines : List Bytes → Type 0
AreLines [] = Unit
AreLines (l ∷ ls) = Lacks b'\n' l × AreLines ls

-- The newline that ends the line in front of the page, where there is one.
abbrev pub lead : ℕ → List Bytes → Bytes
lead zero ls = []
lead (suc k) [] = []
lead (suc zero) (l ∷ ls) = b'\n' ∷ []
lead (suc (suc k)) (l ∷ ls) = lead (suc k) ls

-- The page from line `lo` to before line `hi`.
module _ (lo hi : ℕ) where
  abbrev more : ℕ → Bool
  more line = ltb line hi

  abbrev shown : ℕ → ℕ → Bool
  shown c line = not (ltb (counted c line) lo)

  line_shown :
      (k : ℕ) (l rest : Bytes)
      → Lacks b'\n' l
      → lo ≤ k
      → k < hi
      → (print_piece more shown k (l ++ (b'\n' ∷ rest))).0
        ≡ l ++ (b'\n' ∷ (print_piece more shown (k + 1) rest).0)
  unfolding print_piece
  line_shown k [] rest h p q = ground arith
  line_shown k (c ∷ l) rest h p q = ground (arith, line_shown k l rest h.1 p q)

  line_hidden :
      (k : ℕ) (l rest : Bytes)
      → Lacks b'\n' l
      → k + 1 < lo
      → lo ≤ hi
      → (print_piece more shown k (l ++ (b'\n' ∷ rest))).0 ≡ (print_piece more shown (k + 1) rest).0
  unfolding print_piece
  line_hidden k [] rest h p q = ground arith
  line_hidden k (c ∷ l) rest h p q = ground (arith, line_hidden k l rest h.1 p q)

  line_before :
      (k : ℕ) (l rest : Bytes)
      → Lacks b'\n' l
      → k + 1 ≡ lo
      → lo ≤ hi
      → (print_piece more shown k (l ++ (b'\n' ∷ rest))).0
        ≡ b'\n' ∷ (print_piece more shown (k + 1) rest).0
  unfolding print_piece
  line_before k [] rest h p q = ground arith
  line_before k (c ∷ l) rest h p q = ground (arith, line_before k l rest h.1 p q)

  page_shown :
      (k m : ℕ) (ls : List Bytes)
      → AreLines ls
      → lo ≤ k
      → k + m ≡ hi
      → (print_piece more shown k (text ls)).0 ≡ text (take m ls)
  unfolding print_piece
  page_shown k zero ls h p e =
      ap (λ (r : Bytes × ℕ). r.0) (print_piece_past more shown k (text ls) (ground (arith, e)))
  page_shown k (suc m) [] h p e = refl
  page_shown k (suc m) (l ∷ ls) h p e =
      line_shown k l (text ls) h.0 p (omega (arith, e))
      ∙ ap (λ b. l ++ (b'\n' ∷ b)) (page_shown (k + 1) m ls h.1 (omega arith) (omega (arith, e)))

  page_hidden :
      (k j m : ℕ) (ls : List Bytes)
      → AreLines ls
      → k + j ≡ lo
      → lo + m ≡ hi
      → (print_piece more shown k (text ls)).0 ≡ lead j ls ++ text (take m (drop j ls))
  unfolding print_piece
  page_hidden k zero m ls h p e = page_shown k m ls h (omega arith) (omega (arith, p, e))
  page_hidden k (suc zero) zero [] h p e = refl
  page_hidden k (suc zero) (suc m) [] h p e = refl
  page_hidden k (suc (suc j)) zero [] h p e = refl
  page_hidden k (suc (suc j)) (suc m) [] h p e = refl
  page_hidden k (suc zero) m (l ∷ ls) h p e =
      line_before k l (text ls) h.0 p (omega (arith, e))
      ∙ ap (λ b. b'\n' ∷ b) (page_shown (k + 1) m ls h.1 (omega arith) (omega (arith, p, e)))
  page_hidden k (suc (suc j)) m (l ∷ ls) h p e =
      line_hidden k l (text ls) h.0 (omega (arith, p)) (omega (arith, e))
      ∙ page_hidden (k + 1) (suc j) m ls h.1 (omega (arith, p)) e

abbrev page_between : ℤ → ℤ → Bytes → Bytes
page_between lo hi content =
    print_pieces (λ line. ltb_ℤ (pos line) hi) (λ c line. not (ltb_ℤ (pos (counted c line)) lo))
      (suc (length content)) 0 content

page_between-text :
    (lo m : ℕ) (ls : List Bytes)
    → AreLines ls
    → page_between (pos lo) (pos (lo + m)) (text ls) ≡ lead lo ls ++ text (take m (drop lo ls))
page_between-text lo m ls h =
    (λ i.
      print_pieces (λ line. more_same line i) (λ c line. shown_same c line i)
        (suc (length (text ls))) 0 (text ls))
    ∙ print_pieces_flat (more lo (lo + m)) (shown lo (lo + m)) (suc (length (text ls))) 0 (text ls)
        (omega arith)
    ∙ page_hidden lo (lo + m) 0 lo m ls h (omega arith) refl
  where
    more_same : (line : ℕ) → ltb_ℤ (pos line) (pos (lo + m)) ≡ more lo (lo + m) line
    more_same line = ground arith

    shown_same :
        (c line : ℕ) → not (ltb_ℤ (pos (counted c line)) (pos lo)) ≡ shown lo (lo + m) c line
    shown_same c line = ground arith

entries_up_to : (n q : ℕ) → pos n *ℤ pos (suc q) ≡ pos (n * q + n)
unfolding ◌*ℤ◌
entries_up_to n q = ground arith

entries_before : (n q : ℕ) → pos (n * q + n) -ℤ pos n ≡ pos (n * q)
unfolding ◌-ℤ◌
entries_before n q = ground arith

-- `listSome n p` of a file of lines prints the `n` lines from line `n * (p - 1)` on, those of them that
-- are there, and in front of them the newline that ends the line before.
pub page_lines :
    (n q : ℕ) (ls : List Bytes)
    → AreLines ls
    → page_part (pos n) (pos (suc q)) (text ls) ≡ lead (n * q) ls ++ text (take n (drop (n * q) ls))
page_lines n q ls h =
    ap (λ z. page_between (z -ℤ pos n) z (text ls)) (entries_up_to n q)
    ∙ ap (λ z. page_between z (pos (n * q + n)) (text ls)) (entries_before n q)
    ∙ page_between-text (n * q) n ls h

-- What `listGrades` prints of a file is its first page of five entries: `listSome 5 1` prints the same.
pub list_grades-first_page :
    (content : Bytes) → first_part content ≡ page_part (pos 5) (pos 1) content
unfolding ◌*ℤ◌ ◌-ℤ◌
list_grades-first_page content = λ i.
    print_pieces (λ line. more_same line i) (λ c line. shown_same c line i) (suc (length content)) 0
      content
  where
    more_same : (line : ℕ) → ltb line 5 ≡ ltb_ℤ (pos line) (pos 5)
    more_same line = ground arith

    shown_same : (c line : ℕ) → true ≡ not (ltb_ℤ (pos (counted c line)) (pos 0))
    shown_same c line = ground arith
