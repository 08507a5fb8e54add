-- ===== src/Grades/Paging/Flat.antt =====
-- The loops over pieces print what one loop over the whole file would.
use gtu_cse344_system_progra.Base.{
  Bool, ℕ, zero, suc, ◌<◌, ◌≡◌, refl, ap, sym, ◌∙◌, true, false, [], ◌∷◌, ◌++◌, ◌==◌, length, take,
  drop, take-append-drop, length-drop, arith, Bool-cases, inl, inr,
}
use gtu_cse344_system_progra.Grades.Shell.{Bytes}
use gtu_cse344_system_progra.Grades.Paging.{show_pieces, counted, print_piece, print_pieces}

nil_of_none : (b : Bytes) → (length b == 0) ≡ true → b ≡ []
nil_of_none [] h = refl
nil_of_none (c ∷ b) h = absurd (ground arith)

show_pieces_all : (fuel : ℕ) (rest : Bytes) → length rest < fuel → show_pieces fuel rest ≡ rest
unfolding show_pieces
show_pieces_all zero rest lt = absurd (omega arith)
show_pieces_all (suc fuel) rest lt = elim (Bool-cases (length rest == 0)) [
  | inl e ↦ rw e (sym (nil_of_none rest e))
  | inr e ↦ rw e (
      ap (λ b. take 35 rest ++ b)
        (show_pieces_all fuel (drop 35 rest) (ground (arith, length-drop 35 rest)))
      ∙ take-append-drop 35 rest)
]

-- `showAll` prints the bytes of the file, all and in order, however long it is.
pub show_all_bytes : (content : Bytes) → show_pieces (suc (length content)) content ≡ content
show_all_bytes content = show_pieces_all (suc (length content)) content (omega arith)

module _ (more : ℕ → Bool) (shown : ℕ → ℕ → Bool) where
  -- Where the loop does not go on nothing is printed.
  pub print_piece_past :
      (line : ℕ) (b : Bytes) → more line ≡ false → print_piece more shown line b ≡ ([], line)
  unfolding print_piece
  print_piece_past line [] h = refl
  print_piece_past line (c ∷ b) h = rw h refl

  pub print_piece-append :
      (line : ℕ) (a b : Bytes)
      → let (out, line') = print_piece more shown line a in
        let (out', line'') = print_piece more shown line' b in
        print_piece more shown line (a ++ b) ≡ (out ++ out', line'')
  unfolding print_piece
  print_piece-append line [] b = refl
  print_piece-append line (c ∷ a) b = elim (Bool-cases (more line)) [
    | inl e ↦ elim (Bool-cases (shown c line)) [
      | inl f ↦
          rw (e, f)
            (ap (λ (r : Bytes × ℕ). (c ∷ r.0, r.1)) (print_piece-append (counted c line) a b))
      | inr f ↦ rw (e, f) (print_piece-append (counted c line) a b)
    ]
    | inr e ↦ rw e (sym (print_piece_past line b e))
  ]

  pub print_pieces_flat :
      (fuel line : ℕ) (rest : Bytes)
      → length rest < fuel
      → print_pieces more shown fuel line rest ≡ (print_piece more shown line rest).0
  unfolding print_pieces
  print_pieces_flat zero line rest lt = absurd (omega arith)
  print_pieces_flat (suc fuel) line rest lt = elim (Bool-cases (length rest == 0)) [
    | inl e ↦ rw e (ap (λ b. (print_piece more shown line b).0) (sym (nil_of_none rest e)))
    | inr e ↦ elim (Bool-cases (more line)) [
      | inl f ↦
          rw (e, f)
            (ap (λ b. (print_piece more shown line (take 35 rest)).0 ++ b)
                (print_pieces_flat fuel (print_piece more shown line (take 35 rest)).1
                  (drop 35 rest) (ground (arith, length-drop 35 rest)))
              ∙ sym (
                  ap (λ (r : Bytes × ℕ). r.0)
                    (print_piece-append line (take 35 rest) (drop 35 rest)))
              ∙ ap (λ b. (print_piece more shown line b).0) (take-append-drop 35 rest))
      | inr f ↦ rw (e, f) (sym (ap (λ (r : Bytes × ℕ). r.0) (print_piece_past line rest f)))
    ]
  ]
