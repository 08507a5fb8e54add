-- ===== src/Grades/Sort/Bubble.antt =====
-- A bubble sort by a test that is the strict part of a total order sorts, and keeps the elements.
use mathlib.Core.List.{Perm, append-nil}
use mathlib.Core.List.Perm
use gtu_cse344_system_progra.Base.{
  subst, ap₂, ℕ, zero, suc, ◌-◌, ◌≡◌, refl, ap, sym, ◌∙◌, Bool, true, false, List, [], ◌∷◌, ◌++◌,
  length, arith, inl, inr, Bool-cases, if◌then◌else◌,
}
use gtu_cse344_system_progra.Grades.Sort.{pass, passes, bubble_sort}

-- What a test of neighbours has to be.
pub record IsStrict {ℓ} {A : Type ℓ} (swaps : A → A → Bool) : Type ℓ where
  pub asym : (x y : A) → swaps x y ≡ true → swaps y x ≡ false
  pub trans : (x y z : A) → swaps x y ≡ false → swaps y z ≡ false → swaps x z ≡ false

module _ {ℓ} {A : Type ℓ} (swaps : A → A → Bool) where
  -- Every element of the list may stand in front of `z`; `x` in front of all of them.
  abbrev pub AllBefore : List A → A → Type 0
  AllBefore [] z = Unit
  AllBefore (y ∷ ys) z = (swaps y z ≡ false) × AllBefore ys z

  abbrev pub BeforeAll : A → List A → Type 0
  BeforeAll x [] = Unit
  BeforeAll x (y ∷ ys) = (swaps x y ≡ false) × BeforeAll x ys

  abbrev pub IsSorted : List A → Type 0
  IsSorted [] = Unit
  IsSorted (x ∷ xs) = BeforeAll x xs × IsSorted xs

  abbrev AllBeforeAll : List A → List A → Type 0
  AllBeforeAll [] s = Unit
  AllBeforeAll (x ∷ p) s = BeforeAll x s × AllBeforeAll p s

  -- A pass over `x ∷ ys` puts the greatest element, `peak`, behind the others, `low`.
  low : A → List A → List A
  low x [] = []
  low x (y ∷ r) = (if swaps x y then y else x) ∷ low (if swaps x y then x else y) r

  peak : A → List A → A
  peak x [] = x
  peak x (y ∷ r) = peak (if swaps x y then x else y) r

  pass-low-peak :
      (x : A) (ys s : List A) → pass swaps (length ys) (x ∷ ys ++ s) ≡ low x ys ++ (peak x ys ∷ s)
  unfolding pass low peak
  pass-low-peak x [] s = refl
  pass-low-peak x (y ∷ r) s =
      ap (◌∷◌ (if swaps x y then y else x)) (pass-low-peak (if swaps x y then x else y) r s)

  length-low : (x : A) (ys : List A) → length (low x ys) ≡ length ys
  unfolding low
  length-low x [] = refl
  length-low x (y ∷ r) = ap suc (length-low (if swaps x y then x else y) r)

  pass-perm : (n : ℕ) (xs : List A) → Perm (pass swaps n xs) xs
  unfolding pass
  pass-perm zero xs = Perm.refl xs
  pass-perm (suc n) [] = Perm.refl []
  pass-perm (suc n) (x ∷ []) = Perm.refl (x ∷ [])
  pass-perm (suc n) (x ∷ y ∷ r) = elim (Bool-cases (swaps x y)) [
    | inl e ↦ rw e (Perm.trans (Perm.cons y (pass-perm n (x ∷ r))) (Perm.swap x y r))
    | inr e ↦ rw e (Perm.cons x (pass-perm n (y ∷ r)))
  ]

  passes-perm : (n : ℕ) (xs : List A) → Perm (passes swaps n xs) xs
  unfolding passes
  passes-perm zero xs = Perm.refl xs
  passes-perm (suc n) xs = Perm.trans (passes-perm n (pass swaps (suc n) xs)) (pass-perm (suc n) xs)

  -- The sort loses no element and makes none up.
  pub bubble_sort-perm : (xs : List A) → Perm (bubble_sort swaps xs) xs
  unfolding bubble_sort
  bubble_sort-perm xs = passes-perm (length xs - 1) xs

  AllBeforeAll-cons :
      (l s : List A) (z : A) → AllBefore l z → AllBeforeAll l s → AllBeforeAll l (z ∷ s)
  AllBeforeAll-cons [] s z h k = tt
  AllBeforeAll-cons (x ∷ l) s z h k = ((h.0, k.0), AllBeforeAll-cons l s z h.1 k.1)

  module _ (strict : IsStrict swaps) where
    irrefl : (x : A) → swaps x x ≡ false
    irrefl x = elim (Bool-cases (swaps x x)) [ inl e ↦ strict.asym x x e | inr e ↦ e ]

    -- The element carried on may stand behind both.
    first_before : (x y : A) → swaps x (if swaps x y then x else y) ≡ false
    first_before x y = elim (Bool-cases (swaps x y)) [ inl e ↦ rw e (irrefl x) | inr e ↦ rw e e ]

    left_before :
        (x y : A) → swaps (if swaps x y then y else x) (if swaps x y then x else y) ≡ false
    left_before x y = elim (Bool-cases (swaps x y)) [
      | inl e ↦ rw e (strict.asym x y e)
      | inr e ↦ rw e e
    ]

    before-peak : (x : A) (ys : List A) → swaps x (peak x ys) ≡ false
    unfolding peak
    before-peak x [] = irrefl x
    before-peak x (y ∷ r) =
        strict.trans x (if swaps x y then x else y) (peak (if swaps x y then x else y) r)
          (first_before x y) (before-peak (if swaps x y then x else y) r)

    low-before-peak : (x : A) (ys : List A) → AllBefore (low x ys) (peak x ys)
    unfolding low peak
    low-before-peak x [] = tt
    low-before-peak x (y ∷ r) = (
      strict.trans (if swaps x y then y else x) (if swaps x y then x else y)
          (peak (if swaps x y then x else y) r) (left_before x y)
          (before-peak (if swaps x y then x else y) r),
      low-before-peak (if swaps x y then x else y) r,
    )

    choose_before :
        (b : Bool) (x y : A) (s : List A)
        → BeforeAll x s
        → BeforeAll y s
        → BeforeAll (if b then x else y) s
    choose_before true x y s h k = h
    choose_before false x y s h k = k

    low-before-rest :
        (x : A) (ys s : List A)
        → BeforeAll x s
        → AllBeforeAll ys s
        → AllBeforeAll (low x ys) s × BeforeAll (peak x ys) s
    unfolding low peak
    low-before-rest x [] s h k = (tt, h)
    low-before-rest x (y ∷ r) s h k =
        let rest =
          low-before-rest (if swaps x y then x else y) r s (choose_before (swaps x y) x y s h k.0)
            k.1 in
        ((choose_before (swaps x y) y x s k.0 h, rest.0), rest.1)

    passes-IsSorted :
        (n : ℕ) (p s : List A)
        → length p ≡ suc n
        → AllBeforeAll p s
        → IsSorted s
        → IsSorted (passes swaps n (p ++ s))
    unfolding passes
    passes-IsSorted n [] s e h sorted = absurd (omega arith)
    passes-IsSorted zero (x ∷ []) s e h sorted = (h.0, sorted)
    passes-IsSorted zero (x ∷ y ∷ r) s e h sorted = absurd (omega arith)
    passes-IsSorted (suc n) (x ∷ ys) s e h sorted =
        subst IsSorted (ap (passes swaps n) (sym moved)) (
          passes-IsSorted n (low x ys) (peak x ys ∷ s) (length-low x ys ∙ omega arith)
            (AllBeforeAll-cons (low x ys) s (peak x ys) (low-before-peak x ys) rest.0)
            (rest.1, sorted))
      where
        rest : AllBeforeAll (low x ys) s × BeforeAll (peak x ys) s
        rest = low-before-rest x ys s h.0 h.1

        rounds : suc n ≡ length ys
        rounds = omega arith

        moved : pass swaps (suc n) (x ∷ ys ++ s) ≡ low x ys ++ (peak x ys ∷ s)
        moved = ap (λ k. pass swaps k (x ∷ ys ++ s)) rounds ∙ pass-low-peak x ys s

    nothing_behind : (p : List A) → AllBeforeAll p []
    nothing_behind [] = tt
    nothing_behind (x ∷ p) = (tt, nothing_behind p)

    -- In the result no element stands in front of one that it would change places with.
    pub bubble_sort-IsSorted : (xs : List A) → IsSorted (bubble_sort swaps xs)
    unfolding bubble_sort passes
    bubble_sort-IsSorted [] = tt
    bubble_sort-IsSorted (x ∷ xs) =
        subst IsSorted (ap₂ (passes swaps) rounds (append-nil (x ∷ xs)))
          (passes-IsSorted (length xs) (x ∷ xs) [] refl (nothing_behind (x ∷ xs)) tt)
      where
        rounds : length xs ≡ length (x ∷ xs) - 1
        rounds = omega arith
