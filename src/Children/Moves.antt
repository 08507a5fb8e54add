-- ===== src/Children/Moves.antt =====
-- The steps on FIFO2 keep what the second child knows.
use gtu_cse344_system_progra.Base.{
  subst, if◌then◌else◌, Bool, some, Bool-cases, ℕ, suc, ◌<◌, ◌≡◌, refl, ap, ap₂, sym, ◌∙◌, inl, inr,
  true, false, List, [], ◌∷◌, ◌++◌, length, length-append, take, drop, arith,
}
use gtu_cse344_system_progra.Children.Inv.{
  pending2-past, ints, pending2, past, late, sent, wrote, the_sum, out_bytes, AdderInv, Rest,
  MultiplierInv, ints-append,
}
use gtu_cse344_system_progra.Children.{
  product_from, after_command, command, Parent, opens_fifo2, closes_fifo2, opens_fifo1,
  waits_for_children, writes_fifo2, writes_fifo1, Adder, opens_input, closes_output, added, killed,
  adds, opens_output, writes_sum, Multiplier, opens_array, refused, reads_array, has_command,
  opens_again, reads_sum, prints, is_read,
}
use gtu_cse344_system_progra.Base.Strings.{c_string, codes, same_name_self}
use mathlib.Core.List.{append_assoc, append-nil}
use gtu_cse344_system_progra.Children.Words.{Bytes, int_bytes, bytes_int, bytes_int-int_bytes}

module _ (a : List ℕ) where
  -- The first child has nothing in FIFO2 before the parent is late.
  pub wrote-early :
      (ad : Adder) (p : Parent) (f : Bytes) → late p ≡ false → AdderInv a ad p f → wrote ad ≡ false
  wrote-early opens_input p f e h = refl
  wrote-early (adds k s) p f e h = refl
  wrote-early (opens_output s) p f e h = refl
  wrote-early (writes_sum s) p f e h = refl
  wrote-early closes_output p f e h = absurd (cc (e, h))
  wrote-early added p f e h = absurd (cc (e, h))
  wrote-early killed p f e h = refl

  pub out-nothing : (ad : Adder) → wrote ad ≡ false → out_bytes a ad ≡ []
  out-nothing ad w = rw w refl

  pub MultiplierInv-write :
      (m : Multiplier) (x : ℕ) (xs : List ℕ) (ad : Adder) (f : Bytes)
      → wrote ad ≡ false
      → MultiplierInv a m (writes_fifo2 (x ∷ xs)) ad f
      → MultiplierInv a m (writes_fifo2 xs) ad (f ++ int_bytes x)
  MultiplierInv-write opens_array x xs ad f w (h, g) = absurd (cc h)
  MultiplierInv-write refused x xs ad f w h = h
  MultiplierInv-write (reads_array k ys) x xs ad f w (h, us, split, left, bytes) = (
    λ q. cc,
    us ++ (x ∷ []),
    ap (λ l. ys ++ l) (append_assoc us (x ∷ []) xs) ∙ split,
    omega (arith, left, length-append us (x ∷ [])),
    ap (λ b. b ++ int_bytes x)
          (bytes ∙ ap (λ b. ints us ++ b) (out-nothing ad w) ∙ append-nil (ints us))
        ∙ sym (ints-append us (x ∷ []))
        ∙ sym (append-nil (ints (us ++ (x ∷ []))))
        ∙ ap (λ b. ints (us ++ (x ∷ [])) ++ b) (sym (out-nothing ad w)),
  )
  MultiplierInv-write (has_command c ys) x xs ad f w (h, same, word, rest) = absurd (cc h)
  MultiplierInv-write (opens_again r) x xs ad f w (h, same, rest) = absurd (cc h)
  MultiplierInv-write (reads_sum r) x xs ad f w (h, same, rest) = absurd (cc h)
  MultiplierInv-write (prints v r) x xs ad f w (h, same, rest) = absurd (cc h)

  pub MultiplierInv-command :
      (m : Multiplier) (ad : Adder) (f : Bytes)
      → wrote ad ≡ false
      → MultiplierInv a m (writes_fifo2 []) ad f
      → MultiplierInv a m closes_fifo2 ad (f ++ command)
  MultiplierInv-command opens_array ad f w (h, g) = absurd (cc h)
  MultiplierInv-command refused ad f w h = h
  MultiplierInv-command (reads_array k ys) ad f w (h, us, split, left, bytes) = (
    λ q. cc,
    us,
    split,
    left,
    ap (λ b. b ++ command)
          (bytes ∙ ap (λ b. ints us ++ b) (out-nothing ad w) ∙ append-nil (ints us))
        ∙ ap (λ b. ints us ++ b)
            (sym (append-nil command) ∙ ap (λ b. command ++ b) (sym (out-nothing ad w))),
  )
  MultiplierInv-command (has_command c ys) ad f w (h, same, word, rest) = absurd (cc h)
  MultiplierInv-command (opens_again r) ad f w (h, same, rest) = absurd (cc h)
  MultiplierInv-command (reads_sum r) ad f w (h, same, rest) = absurd (cc h)
  MultiplierInv-command (prints v r) ad f w (h, same, rest) = absurd (cc h)

  Rest-sum :
      (s : ℕ) (f : Bytes)
      → s ≡ the_sum a
      → Rest a (writes_sum s) f
      → Rest a closes_output (f ++ int_bytes s)
  Rest-sum s f e (inl h) = inr (ap₂ (λ b n. b ++ int_bytes n) h e, refl)
  Rest-sum s f e (inr (h, w)) = absurd (cc w)

  pub MultiplierInv-sum :
      (m : Multiplier) (p : Parent) (s : ℕ) (f : Bytes)
      → past p ≡ true
      → s ≡ the_sum a
      → is_read m ≡ true
      → MultiplierInv a m p (writes_sum s) f
      → MultiplierInv a m p closes_output (f ++ int_bytes s)
  MultiplierInv-sum opens_array p s f e same r (h, g) = absurd (cc r)
  MultiplierInv-sum refused p s f e same r h = h
  MultiplierInv-sum (reads_array k ys) p s f e same r (h, us, split, left, bytes) = (
    h,
    us,
    split,
    left,
    ap₂ (λ b n. b ++ int_bytes n) (bytes ∙ ap (λ b. ints us ++ b) (append-nil (sent p))) same
        ∙ append_assoc (ints us) (sent p) (int_bytes (the_sum a)),
  )
  MultiplierInv-sum (has_command c ys) p s f e same r (h, g, word, rest) =
      (h, g, word, Rest-sum s f same rest)
  MultiplierInv-sum (opens_again q) p s f e same r (h, g, rest) = absurd (cc r)
  MultiplierInv-sum (reads_sum q) p s f e same r (h, g, rest) = (h, g, Rest-sum s f same rest)
  MultiplierInv-sum (prints v q) p s f e same r (h, g, rest) = absurd (cc r)

  -- The second child reads a number.
  pub MultiplierInv-read :
      (all_ints : (xs : List ℕ) (x : ℕ) (ys : List ℕ) → xs ++ (x ∷ ys) ≡ a → x < 4294967296) (k : ℕ)
      (xs : List ℕ) (p : Parent) (ad : Adder) (f : Bytes)
      → (late p ≡ false → wrote ad ≡ false)
      → 0 < length f
      → MultiplierInv a (reads_array (suc k) xs) p ad f
      → MultiplierInv a (reads_array k (xs ++ (bytes_int (take 4 f) ∷ []))) p ad (drop 4 f)
  MultiplierInv-read all_ints k xs p ad f early some_bytes (h, [], split, left, bytes) =
      absurd (nothing_yet p refl)
    where
      nothing_yet : (q : Parent) → p ≡ q → ⊥
      nothing_yet opens_fifo2 e = h e
      nothing_yet (writes_fifo2 ys) e = absurd (
          omega (
            arith,
            some_bytes,
            ap length (bytes ∙ ap₂ (λ q b. sent q ++ b) e (out-nothing ad (early (ap late e)))),
          ))
      nothing_yet closes_fifo2 e = omega (arith, left, ap (λ q. length (pending2 q)) e)
      nothing_yet opens_fifo1 e = omega (arith, left, ap (λ q. length (pending2 q)) e)
      nothing_yet (writes_fifo1 ys) e = omega (arith, left, ap (λ q. length (pending2 q)) e)
      nothing_yet waits_for_children e = omega (arith, left, ap (λ q. length (pending2 q)) e)
  MultiplierInv-read all_ints k xs p ad f early some_bytes (h, u ∷ us, split, left, bytes) = (
    h,
    us,
    ap (λ x. (xs ++ (x ∷ [])) ++ (us ++ pending2 p)) number
        ∙ append_assoc xs (u ∷ []) (us ++ pending2 p)
        ∙ split,
    omega (arith, left),
    ap (drop 4) bytes,
  )
    where
      number : bytes_int (take 4 f) ≡ u
      number =
          ap (λ b. bytes_int (take 4 b)) bytes
          ∙ bytes_int-int_bytes u (all_ints xs u (us ++ pending2 p) split)

  accepted : (ad : Adder) → c_string (take 20 (command ++ out_bytes a ad)) ≡ codes "multiply"
  unfolding c_string
  accepted ad = refl

  swallowed : (ad : Adder) → drop 20 (command ++ out_bytes a ad) ≡ []
  swallowed ad = elim (Bool-cases (wrote ad)) [ inl e ↦ rw e refl | inr e ↦ rw e refl ]

  -- The second child reads the command, and the sum with it where that is there.
  pub MultiplierInv-accept :
      (xs : List ℕ) (p : Parent) (ad : Adder) (f : Bytes)
      → (late p ≡ false → wrote ad ≡ false)
      → 0 < length f
      → MultiplierInv a (reads_array 0 xs) p ad f
      → MultiplierInv a (has_command (take 20 f) xs) p ad (drop 20 f)
  MultiplierInv-accept xs p ad f early some_bytes (h, u ∷ us, split, left, bytes) =
      absurd (omega (arith, left))
  MultiplierInv-accept xs p ad f early some_bytes (h, [], split, left, bytes) =
      elim (Bool-cases (past p)) [
        | inr e ↦ absurd (
            omega (
              arith,
              some_bytes,
              ap length (
                  bytes
                  ∙ ap₂ (λ (b : Bool) r. (if b then command else []) ++ r) e
                      (out-nothing ad (early (not_late p e)))),
            ))
        | inl e ↦
            let whole =
              bytes ∙ ap (λ (b : Bool). (if b then command else []) ++ out_bytes a ad) e in
            (
              e,
              sym (append-nil xs) ∙ ap (λ l. xs ++ l) (sym (pending2-past p e)) ∙ split,
              ap (λ b. c_string (take 20 b)) whole ∙ accepted ad,
              inl (ap (drop 20) whole ∙ swallowed ad),
            )
      ]
    where
      not_late : (q : Parent) → past q ≡ false → late q ≡ false
      not_late (writes_fifo2 ys) e = refl
      not_late opens_fifo2 e = refl
      not_late closes_fifo2 e = cc
      not_late opens_fifo1 e = cc
      not_late (writes_fifo1 ys) e = cc
      not_late waits_for_children e = cc

  -- It closes FIFO2.
  pub MultiplierInv-after :
      (c : Bytes) (xs : List ℕ) (p : Parent) (ad : Adder) (f : Bytes) (b : Bool)
      → MultiplierInv a (has_command c xs) p ad f
      → MultiplierInv a (after_command c xs) p ad (if b then f else [])
  MultiplierInv-after c xs p ad f b (h, same, word, rest) =
      subst (λ m. MultiplierInv a m p ad (if b then f else [])) (sym accepts)
        (h, ap (product_from 1) same, left b)
    where
      accepts : after_command c xs ≡ opens_again (product_from 1 xs)
      accepts = rw (word, same_name_self (codes "multiply")) refl

      left : (b : Bool) → Rest a ad (if b then f else [])
      left true = rest
      left false = inl refl

  pub MultiplierInv-print :
      (r : ℕ) (p : Parent) (ad : Adder) (f : Bytes)
      → the_sum a < 4294967296
      → 0 < length f
      → MultiplierInv a (reads_sum r) p ad f
      → MultiplierInv a (prints (some (bytes_int (take 4 f))) r) p ad (drop 4 f)
  MultiplierInv-print r p ad f lt some_bytes (h, same, inl e) =
      absurd (omega (arith, some_bytes, ap length e))
  MultiplierInv-print r p ad f lt some_bytes (h, same, inr (e, w)) =
      (h, same, ap (λ b. bytes_int (take 4 b)) e ∙ bytes_int-int_bytes (the_sum a) lt)
