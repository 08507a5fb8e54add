-- ===== src/Children/Keeps.antt =====
-- Every step keeps what the first child knows and what the second child knows.
use mathlib.Core.List.{append_assoc, append-nil}
use gtu_cse344_system_progra.Base.{
  ℕ, suc, ◌+◌, ◌%◌, ◌<◌, ◌≡◌, refl, ap, ap₂, sym, ◌∙◌, inl, inr, Bool, true, false, List, [], ◌∷◌,
  ◌++◌, length, length-append, take, drop, arith, if◌then◌else◌,
}
use gtu_cse344_system_progra.Children.Words.{Bytes, int_bytes, bytes_int, bytes_int-int_bytes}
use gtu_cse344_system_progra.Children.{
  int_mod, sum_from, command, Parent, waits_for_children, writes_fifo1, Adder, opens_input,
  closes_output, added, killed, adds, opens_output, writes_sum, Multiplier, opens_array, refused,
  reads_array, has_command, opens_again, reads_sum, prints, is_read,
}
use gtu_cse344_system_progra.Children.Inv.{
  ints, pending1, past, late, wrote, the_sum, AdderInv, Rest, MultiplierInv, pending2-past,
  ints-append, sum_from_last,
}

module _ (a : List ℕ) where
  -- The parent before it is late does not touch what the first child knows.
  pub AdderInv-early :
      (ad : Adder) (p p' : Parent) (f : Bytes)
      → late p ≡ false
      → late p' ≡ false
      → AdderInv a ad p f
      → AdderInv a ad p' f
  AdderInv-early opens_input p p' f e e' (h, g) = (e', g)
  AdderInv-early (adds k s) p p' f e e' (h, vs, us, split, left, bytes, sum) = absurd (cc (e, h))
  AdderInv-early (opens_output s) p p' f e e' (h, g) = absurd (cc (e, h))
  AdderInv-early (writes_sum s) p p' f e e' (h, g) = absurd (cc (e, h))
  AdderInv-early closes_output p p' f e e' h = absurd (cc (e, h))
  AdderInv-early added p p' f e e' h = absurd (cc (e, h))
  AdderInv-early killed p p' f e e' h = absurd (cc (e, h))

  pub AdderInv-close :
      (ad : Adder) (f : Bytes)
      → AdderInv a ad (writes_fifo1 []) f
      → AdderInv a ad waits_for_children f
  AdderInv-close opens_input f (h, g) = absurd (cc h)
  AdderInv-close (adds k s) f (h, vs, us, split, left, bytes, sum) =
      (refl, vs, us, split, left, bytes, sum)
  AdderInv-close (opens_output s) f (h, g) = (refl, g)
  AdderInv-close (writes_sum s) f (h, g) = (refl, g)
  AdderInv-close closes_output f h = refl
  AdderInv-close added f h = refl
  AdderInv-close killed f h = refl

  pub AdderInv-write :
      (ad : Adder) (x : ℕ) (xs : List ℕ) (f : Bytes)
      → AdderInv a ad (writes_fifo1 (x ∷ xs)) f
      → AdderInv a ad (writes_fifo1 xs) (f ++ int_bytes x)
  AdderInv-write opens_input x xs f (h, g) = absurd (cc h)
  AdderInv-write (adds k s) x xs f (h, vs, us, split, left, bytes, sum) = (
    refl,
    vs,
    us ++ (x ∷ []),
    ap (λ l. vs ++ l) (append_assoc us (x ∷ []) xs) ∙ split,
    omega (arith, left, length-append us (x ∷ [])),
    ap (λ b. b ++ int_bytes x) bytes ∙ sym (ints-append us (x ∷ [])),
    sum,
  )
  AdderInv-write (opens_output s) x xs f (h, g) = (refl, g)
  AdderInv-write (writes_sum s) x xs f (h, g) = (refl, g)
  AdderInv-write closes_output x xs f h = refl
  AdderInv-write added x xs f h = refl
  AdderInv-write killed x xs f h = refl

  -- The first child reads a number.
  pub AdderInv-add :
      (all_ints : (xs : List ℕ) (x : ℕ) (ys : List ℕ) → xs ++ (x ∷ ys) ≡ a → x < 4294967296)
      (k s : ℕ) (p : Parent) (f : Bytes)
      → 0 < length f
      → AdderInv a (adds (suc k) s) p f
      → AdderInv a (adds k ((s + bytes_int (take 4 f)) % int_mod)) p (drop 4 f)
  AdderInv-add all_ints k s p f some_bytes (h, vs, [], split, left, bytes, sum) =
      absurd (omega (arith, some_bytes, ap length bytes))
  AdderInv-add all_ints k s p f some_bytes (h, vs, u ∷ us, split, left, bytes, sum) = (
    h,
    vs ++ (u ∷ []),
    us,
    append_assoc vs (u ∷ []) (us ++ pending1 p) ∙ split,
    omega (arith, left),
    ap (drop 4) bytes,
    ap₂ (λ s' x. (s' + x) % int_mod) sum
          (ap (λ b. bytes_int (take 4 b)) bytes
            ∙ bytes_int-int_bytes u (all_ints vs u (us ++ pending1 p) split))
        ∙ sym (sum_from_last 0 vs u),
  )

  none_left : (vs us ps : List ℕ) → 0 ≡ length us + length ps → vs ++ (us ++ ps) ≡ vs
  none_left vs [] [] e = append-nil vs
  none_left vs [] (x ∷ ps) e = absurd (omega (arith, e))
  none_left vs (u ∷ us) ps e = absurd (omega (arith, e))

  pub AdderInv-all :
      (s : ℕ) (p : Parent) (f : Bytes)
      → AdderInv a (adds 0 s) p f
      → (late p ≡ true) × (s ≡ the_sum a)
  AdderInv-all s p f (h, vs, us, split, left, bytes, sum) =
      (h, sum ∙ ap (sum_from 0) (sym (none_left vs us (pending1 p) left) ∙ split))

  Rest-wrote : (ad ad' : Adder) (f : Bytes) → wrote ad ≡ wrote ad' → Rest a ad f → Rest a ad' f
  Rest-wrote ad ad' f w (inl e) = inl e
  Rest-wrote ad ad' f w (inr (e, h)) = inr (e, sym w ∙ h)

  -- What the second child knows stays while the parent is past its command and the first child writes
  -- nothing.
  pub MultiplierInv-past :
      (m : Multiplier) (p p' : Parent) (ad ad' : Adder) (f : Bytes)
      → past p ≡ true
      → past p' ≡ true
      → wrote ad ≡ wrote ad'
      → MultiplierInv a m p ad f
      → MultiplierInv a m p' ad' f
  MultiplierInv-past opens_array p p' ad ad' f e e' w (h, g) = absurd (cc (e, ap past h))
  MultiplierInv-past refused p p' ad ad' f e e' w h = h
  MultiplierInv-past (reads_array k xs) p p' ad ad' f e e' w (h, us, split, left, bytes) = (
    λ q. cc (e', ap past q),
    us,
    ap (λ l. xs ++ (us ++ l)) (pending2-past p' e' ∙ sym (pending2-past p e)) ∙ split,
    omega (arith, left, ap length (pending2-past p e), ap length (pending2-past p' e')),
    bytes
        ∙ ap₂
            (λ (b b' : Bool).
              ints us
              ++ ((if b then command else []) ++ (if b' then int_bytes (the_sum a) else [])))
            (e ∙ sym e') w,
  )
  MultiplierInv-past (has_command c xs) p p' ad ad' f e e' w (h, same, word, rest) =
      (e', same, word, Rest-wrote ad ad' f w rest)
  MultiplierInv-past (opens_again r) p p' ad ad' f e e' w (h, same, rest) =
      (e', same, Rest-wrote ad ad' f w rest)
  MultiplierInv-past (reads_sum r) p p' ad ad' f e e' w (h, same, rest) =
      (e', same, Rest-wrote ad ad' f w rest)
  MultiplierInv-past (prints v r) p p' ad ad' f e e' w (h, same, right) = (e', same, right)

  -- So it does where that is a close, behind which FIFO2 keeps its bytes only if the child has it open.
  pub MultiplierInv-close :
      (m : Multiplier) (p p' : Parent) (ad ad' : Adder) (f : Bytes)
      → past p ≡ true
      → past p' ≡ true
      → wrote ad ≡ wrote ad'
      → MultiplierInv a m p ad f
      → MultiplierInv a m p' ad' (if is_read m then f else [])
  MultiplierInv-close opens_array p p' ad ad' f e e' w (h, g) = absurd (cc (e, ap past h))
  MultiplierInv-close refused p p' ad ad' f e e' w h = h
  MultiplierInv-close (reads_array k xs) p p' ad ad' f e e' w h =
      MultiplierInv-past (reads_array k xs) p p' ad ad' f e e' w h
  MultiplierInv-close (has_command c xs) p p' ad ad' f e e' w h =
      MultiplierInv-past (has_command c xs) p p' ad ad' f e e' w h
  MultiplierInv-close (opens_again r) p p' ad ad' f e e' w (h, same, rest) = (e', same, inl refl)
  MultiplierInv-close (reads_sum r) p p' ad ad' f e e' w h =
      MultiplierInv-past (reads_sum r) p p' ad ad' f e e' w h
  MultiplierInv-close (prints v r) p p' ad ad' f e e' w (h, same, right) = (e', same, right)
