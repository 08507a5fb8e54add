-- ===== src/Server/Request/Write/Lines.antt =====
-- What writeT makes of the lines of a file.
use gtu_cse344_system_progra.Base.{
  subst, ℕ, zero, suc, ◌+◌, ◌-◌, ◌≤◌, ◌<◌, ◌≡◌, ◌≢◌, refl, ap, sym, ◌∙◌, Bool, true, false, ◌||◌,
  ◌==◌, leb, List, [], ◌∷◌, ◌++◌, length, set, arith, inl, inr, Bool-cases, if◌then◌else◌,
}
use gtu_cse344_system_progra.Server.Request.Write.{
  fputs, fgets_room, last_piece, fgets_all, read_pieces, fill_temp, copy_back,
}
use mathlib.Core.List.{append-nil, append_assoc}
use gtu_cse344_system_progra.Server.Request.World.{Bytes}
use gtu_cse344_system_progra.Server.Request.Read.Lines.{OneLine, AllOneLine, join_lines}

fgets_all_step :
    (room : ℕ) (line : Bytes) (ch : ℕ) (rest : Bytes)
    → fgets_all room line (ch ∷ rest) ≡ (
        if (ch == b'\n') || leb room 1
        then (line ++ (ch ∷ [])) ∷ fgets_all fgets_room [] rest
        else fgets_all (room - 1) (line ++ (ch ∷ [])) rest)
unfolding fgets_all
fgets_all_step room line ch rest = ground arith

fgets_all_nil : (room : ℕ) (line : Bytes) → fgets_all room line [] ≡ last_piece line
unfolding fgets_all
fgets_all_nil room line = refl

-- The bytes hold no 0.
abbrev pub Text : Bytes → Type 0
Text [] = Unit
Text (c ∷ s) = ((c == 0) ≡ false) × Text s

abbrev pub AllText : List Bytes → Type 0
AllText [] = Unit
AllText (l ∷ ls) = Text l × AllText ls

fputs-Text : (s : Bytes) → Text s → fputs s ≡ s
unfolding fputs
fputs-Text [] h = refl
fputs-Text (c ∷ s) h = ground (arith, h.0, fputs-Text s h.1)

Text-append : (a b : Bytes) → Text a → Text b → Text (a ++ b)
Text-append [] b h k = k
Text-append (c ∷ a) b h k = (h.0, Text-append a b h.1 k)

copy_back_cons : (p : Bytes) (ps : List Bytes) → Text p → copy_back (p ∷ ps) ≡ p ++ copy_back ps
unfolding copy_back
copy_back_cons p ps h = ap (λ b. b ++ copy_back ps) (fputs-Text p h)

copy_back-last_piece : (line : Bytes) → Text line → copy_back (last_piece line) ≡ line
unfolding copy_back last_piece
copy_back-last_piece [] h = refl
copy_back-last_piece (c ∷ line) h =
    ap (λ b. b ++ []) (fputs-Text (c ∷ line) h) ∙ append-nil (c ∷ line)

copy_back-fgets_all :
    (room : ℕ) (line content : Bytes)
    → Text line
    → Text content
    → copy_back (fgets_all room line content) ≡ line ++ content
copy_back-fgets_all room line [] h k =
    ap copy_back (fgets_all_nil room line) ∙ copy_back-last_piece line h ∙ sym (append-nil line)
copy_back-fgets_all room line (ch ∷ rest) h k = elim (Bool-cases ((ch == b'\n') || leb room 1)) [
  | inl e ↦
      ap copy_back (fgets_all_step room line ch rest)
      ∙ rw e (
          copy_back_cons (line ++ (ch ∷ [])) (fgets_all fgets_room [] rest) longer
          ∙ ap (λ b. (line ++ (ch ∷ [])) ++ b) (copy_back-fgets_all fgets_room [] rest tt k.1))
      ∙ append_assoc line (ch ∷ []) rest
  | inr e ↦
      ap copy_back (fgets_all_step room line ch rest)
      ∙ rw e (copy_back-fgets_all (room - 1) (line ++ (ch ∷ [])) rest longer k.1)
      ∙ append_assoc line (ch ∷ []) rest
]
  where
    longer : Text (line ++ (ch ∷ []))
    longer = Text-append line (ch ∷ []) h (k.0, tt)

-- Reading a file without a byte 0 in pieces by `fgets`, and writing the pieces by `fputs`, gives the
-- same file.
pub copy_back-read_pieces :
    (content : Bytes) → Text content → copy_back (read_pieces content) ≡ content
unfolding read_pieces
copy_back-read_pieces content h = copy_back-fgets_all fgets_room [] content tt h

-- The lines fit the buffer of `fgets` with their newlines.
abbrev pub AllShort : List Bytes → Type 0
AllShort [] = Unit
AllShort (l ∷ ls) = (length l < fgets_room) × AllShort ls

-- What `fgets` gives of such lines, and of the bytes behind the last newline.
line_pieces : List Bytes → Bytes → List Bytes
line_pieces [] tail = last_piece tail
line_pieces (l ∷ ls) tail = (l ++ (b'\n' ∷ [])) ∷ line_pieces ls tail

fgets_all_line :
    (room : ℕ) (line l rest : Bytes)
    → OneLine l
    → length l < room
    → fgets_all room line (l ++ (b'\n' ∷ rest))
      ≡ (line ++ (l ++ (b'\n' ∷ []))) ∷ fgets_all fgets_room [] rest
fgets_all_line room line [] rest one lt = fgets_all_step room line b'\n' rest
fgets_all_line room line (c ∷ l) rest one lt =
    fgets_all_step room line c (l ++ (b'\n' ∷ rest))
    ∙ rw (one.0, room_left)
        (fgets_all_line (room - 1) (line ++ (c ∷ [])) l rest one.1 (omega arith)
          ∙ ap (λ b. b ∷ fgets_all fgets_room [] rest)
              (append_assoc line (c ∷ []) (l ++ (b'\n' ∷ []))))
  where
    room_left : leb room 1 ≡ false
    room_left = ground arith

fgets_all_tail :
    (room : ℕ) (line l : Bytes)
    → OneLine l
    → length l < room
    → fgets_all room line l ≡ last_piece (line ++ l)
fgets_all_tail room line [] one lt = fgets_all_nil room line ∙ ap last_piece (sym (append-nil line))
fgets_all_tail room line (c ∷ l) one lt =
    fgets_all_step room line c l
    ∙ rw (one.0, room_left)
        (fgets_all_tail (room - 1) (line ++ (c ∷ [])) l one.1 (omega arith)
          ∙ ap last_piece (append_assoc line (c ∷ []) l))
  where
    room_left : leb room 1 ≡ false
    room_left = ground arith

read_pieces-lines :
    (ls : List Bytes) (tail : Bytes)
    → AllOneLine ls
    → AllShort ls
    → OneLine tail
    → length tail < fgets_room
    → fgets_all fgets_room [] (join_lines ls ++ tail) ≡ line_pieces ls tail
unfolding line_pieces
read_pieces-lines [] tail one short last small = fgets_all_tail fgets_room [] tail last small
read_pieces-lines (l ∷ ls) tail one short last small =
    ap (fgets_all fgets_room []) (append_assoc l (b'\n' ∷ join_lines ls) tail)
    ∙ fgets_all_line fgets_room [] l (join_lines ls ++ tail) one.0 short.0
    ∙ ap (◌∷◌ (l ++ (b'\n' ∷ []))) (read_pieces-lines ls tail one.1 short.1 last small)

newline-Text : (l : Bytes) → Text l → Text (l ++ (b'\n' ∷ []))
newline-Text l h = Text-append l (b'\n' ∷ []) h (refl, tt)

copy_back-line_pieces :
    (ls : List Bytes) (tail : Bytes)
    → AllText ls
    → Text tail
    → copy_back (line_pieces ls tail) ≡ join_lines ls ++ tail
unfolding line_pieces
copy_back-line_pieces [] tail h k = copy_back-last_piece tail k
copy_back-line_pieces (l ∷ ls) tail h k =
    copy_back_cons (l ++ (b'\n' ∷ [])) (line_pieces ls tail) (newline-Text l h.0)
    ∙ ap (λ b. (l ++ (b'\n' ∷ [])) ++ b) (copy_back-line_pieces ls tail h.1 k)
    ∙ append_assoc l (b'\n' ∷ []) (join_lines ls ++ tail)
    ∙ sym (append_assoc l (b'\n' ∷ join_lines ls) tail)

-- Behind the line in question the loop copies.
fill_temp_past :
    (n current : ℕ) (str : Bytes) (ps : List Bytes)
    → n ≤ current
    → fill_temp n str current ps ≡ (copy_back ps, false)
unfolding fill_temp copy_back
fill_temp_past n current str [] le = refl
fill_temp_past n current str (p ∷ ps) le =
    rw (fill_temp_past n (current + 1) str ps (omega arith)) (ground arith)

fill_temp_hit :
    (n current : ℕ) (str p : Bytes) (ps : List Bytes)
    → n ≡ current + 1
    → fill_temp n str current (p ∷ ps) ≡ ((str ++ (b'\n' ∷ [])) ++ copy_back ps, true)
unfolding fill_temp
fill_temp_hit n current str p ps e =
    ground (arith, fill_temp_past n (current + 1) str ps (omega arith))

fill_temp_skip :
    (n current : ℕ) (str p : Bytes) (ps : List Bytes) (temp : Bytes) (placed : Bool)
    → n ≢ current + 1
    → fill_temp n str (current + 1) ps ≡ (temp, placed)
    → fill_temp n str current (p ∷ ps) ≡ (fputs p ++ temp, placed)
unfolding fill_temp
fill_temp_skip n current str p ps temp placed ne rest = ground arith

line_front :
    (l : Bytes) (ls : List Bytes) (tail : Bytes)
    → (l ++ (b'\n' ∷ [])) ++ (join_lines ls ++ tail) ≡ join_lines (l ∷ ls) ++ tail
line_front l ls tail =
    append_assoc l (b'\n' ∷ []) (join_lines ls ++ tail)
    ∙ sym (append_assoc l (b'\n' ∷ join_lines ls) tail)

fill_temp_at :
    (n j current : ℕ) (str : Bytes) (ls : List Bytes) (tail : Bytes)
    → n ≡ current + suc j
    → j < length ls
    → AllText ls
    → Text tail
    → fill_temp n str current (line_pieces ls tail) ≡ (join_lines (set ls j str) ++ tail, true)
unfolding line_pieces
fill_temp_at n j current str [] tail e lt h k = absurd (omega arith)
fill_temp_at n zero current str (l ∷ ls) tail e lt h k =
    fill_temp_hit n current str (l ++ (b'\n' ∷ [])) (line_pieces ls tail) (omega arith)
    ∙ ap (λ b. (b, true))
        (ap (λ b. (str ++ (b'\n' ∷ [])) ++ b) (copy_back-line_pieces ls tail h.1 k)
          ∙ line_front str ls tail)
fill_temp_at n (suc j) current str (l ∷ ls) tail e lt h k =
    fill_temp_skip n current str (l ++ (b'\n' ∷ [])) (line_pieces ls tail)
      (join_lines (set ls j str) ++ tail) true (omega arith)
      (fill_temp_at n j (current + 1) str ls tail (omega arith) (omega arith) h.1 k)
    ∙ ap (λ b. (b ++ (join_lines (set ls j str) ++ tail), true))
        (fputs-Text (l ++ (b'\n' ∷ [])) (newline-Text l h.0))
    ∙ ap (λ b. (b, true)) (line_front l (set ls j str) tail)

set-AllText :
    (ls : List Bytes) (j : ℕ) (str : Bytes) → AllText ls → Text str → AllText (set ls j str)
set-AllText [] j str h k = tt
set-AllText (l ∷ ls) zero str h k = (k, h.1)
set-AllText (l ∷ ls) (suc j) str h k = (h.0, set-AllText ls j str h.1 k)

join_lines-Text :
    (ls : List Bytes) (tail : Bytes) → AllText ls → Text tail → Text (join_lines ls ++ tail)
join_lines-Text [] tail h k = k
join_lines-Text (l ∷ ls) tail h k = subst Text (line_front l ls tail) (
    Text-append (l ++ (b'\n' ∷ [])) (join_lines ls ++ tail) (newline-Text l h.0)
      (join_lines-Text ls tail h.1 k))

-- The temporary file for a line that the file has, and the copy of it that goes back: the same lines
-- with the new string in place of that one, and the same bytes behind the last newline. The lines
-- are shorter than the buffer of `fgets`, and neither they nor the string have a byte 0.
pub replace_line :
    (j : ℕ) (str : Bytes) (ls : List Bytes) (tail : Bytes)
    → AllOneLine ls
    → AllShort ls
    → AllText ls
    → OneLine tail
    → length tail < fgets_room
    → Text tail
    → Text str
    → j < length ls
    → let (temp, placed) = fill_temp (suc j) str 0 (read_pieces (join_lines ls ++ tail)) in
      (placed ≡ true) × (copy_back (read_pieces temp) ≡ join_lines (set ls j str) ++ tail)
unfolding read_pieces
replace_line j str ls tail one short texts last small text_tail text_str lt = (
  ap (λ (r : Bytes × Bool). r.1) filled,
  ap (λ (r : Bytes × Bool). copy_back (fgets_all fgets_room [] r.0)) filled
      ∙ copy_back-fgets_all fgets_room [] (join_lines (set ls j str) ++ tail) tt
          (join_lines-Text (set ls j str) tail (set-AllText ls j str texts text_str) text_tail),
)
  where
    filled :
        fill_temp (suc j) str 0 (fgets_all fgets_room [] (join_lines ls ++ tail))
        ≡ (join_lines (set ls j str) ++ tail, true)
    filled =
        ap (fill_temp (suc j) str 0) (read_pieces-lines ls tail one short last small)
        ∙ fill_temp_at (suc j) j 0 str ls tail (omega arith) lt texts text_tail
