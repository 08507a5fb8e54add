-- ===== src/Base/Ring.antt =====
-- The occupied slots of a circular array, for the two C queues that keep one: `buffer.c` of HW4
-- and `structs.c` of the midterm.
use Prim.Native.Nat.{ℕ, zero, suc, ◌+◌, ◌-◌, ◌%◌, ◌≤◌, ◌<◌}
use mathlib.Core.Path.{◌≡◌, refl, ap, ap₂}
use mathlib.Core.Logic.{◌≢◌, ◌⊎◌, inl, inr}
use mathlib.Core.List.{List, [], ◌∷◌, ◌++◌}
use native.Mathlib.Omega.{arith}
use native.Mathlib.Nat.{mod-eq_of_lt, mod-eq-sub-mod}
use gtu_cse344_system_progra.Base.Tests.{ltb, if◌then◌else◌}
use gtu_cse344_system_progra.Base.Lists.{length, get_or, set}

-- An index that has run past the end at most once, brought back.
abbrev pub wrap : ℕ → ℕ → ℕ
wrap cap x = if ltb x cap then x else x - cap

-- The code writes the wrap as a remainder.
pub mod-eq-wrap : (cap x : ℕ) → 0 < cap → x < cap + cap → x % cap ≡ wrap cap x
mod-eq-wrap cap x pos h = elim (dec x) [
  | inl lt ↦ ground (arith, mod-eq_of_lt {n = x} {m = cap} lt)
  | inr ge ↦ ground (
    arith,
    mod-eq-sub-mod {n = x} {m = cap} ge,
    mod-eq_of_lt {n = x - cap} {m = cap} (omega arith),
  )
]
  where
    dec : (y : ℕ) → (y < cap) ⊎ (cap ≤ y)
    dec y = grind arith

module _ {ℓ} {A : Type ℓ} where
  pub get_or-set_other :
      (xs : List A) (v : A) (i j : ℕ) (d : A) → i ≢ j → get_or (set xs i v) j d ≡ get_or xs j d
  get_or-set_other [] v i j d ne = refl
  get_or-set_other (x ∷ xs) v zero zero d ne = absurd (ne refl)
  get_or-set_other (x ∷ xs) v zero (suc j) d ne = refl
  get_or-set_other (x ∷ xs) v (suc i) zero d ne = refl
  get_or-set_other (x ∷ xs) v (suc i) (suc j) d ne =
      get_or-set_other xs v i j d (λ e. ne (ap suc e))

  pub get_or-set_at :
      (xs : List A) (v : A) (i j : ℕ) (d : A) → i ≡ j → i < length xs → get_or (set xs i v) j d ≡ v
  get_or-set_at [] v i j d e lt = absurd (omega arith)
  get_or-set_at (x ∷ xs) v zero zero d e lt = refl
  get_or-set_at (x ∷ xs) v zero (suc j) d e lt = absurd (omega arith)
  get_or-set_at (x ∷ xs) v (suc i) zero d e lt = absurd (omega arith)
  get_or-set_at (x ∷ xs) v (suc i) (suc j) d e lt =
      get_or-set_at xs v i j d (omega arith) (omega arith)

module _ {ℓ} {A : Type ℓ} (d : A) (cap : ℕ) where
  -- The `n` slots from index `out` on, oldest first; `d` stands for a read outside the array.
  abbrev pub slots : List A → ℕ → ℕ → List A
  slots xs out zero = []
  slots xs out (suc n) = get_or xs out d ∷ slots xs (wrap cap (out + 1)) n

  pub length-slots : (xs : List A) (out n : ℕ) → length (slots xs out n) ≡ n
  length-slots xs out zero = refl
  length-slots xs out (suc n) = ap suc (length-slots xs (wrap cap (out + 1)) n)

  -- A write at an index which none of the slots has leaves them alone.
  pub slots-set_fresh :
      (xs : List A) (v : A) (out n i : ℕ)
      → out < cap
      → ((k : ℕ) → k < n → wrap cap (out + k) ≢ i)
      → n ≤ cap
      → slots (set xs i v) out n ≡ slots xs out n
  slots-set_fresh xs v out zero i lt fresh small = refl
  slots-set_fresh xs v out (suc n) i lt fresh small =
      ap₂ ◌∷◌ (get_or-set_other xs v i out d ne)
        (slots-set_fresh xs v (wrap cap (out + 1)) n i (ground arith) later (omega arith))
    where
      ne : i ≢ out
      ne e = fresh 0 (omega arith) (ground arith)

      later : (k : ℕ) → k < n → wrap cap (wrap cap (out + 1) + k) ≢ i
      later k below e = fresh (k + 1) (omega arith) (ground arith)

  -- A write just behind the occupied slots puts the value last.
  pub slots-set_next :
      (xs : List A) (v : A) (out n i : ℕ)
      → out < cap
      → n < cap
      → cap ≤ length xs
      → i ≡ wrap cap (out + n)
      → slots (set xs i v) out (suc n) ≡ slots xs out n ++ (v ∷ [])
  slots-set_next xs v out zero i lt room big e =
      ap (λ a. a ∷ []) (get_or-set_at xs v i out d (ground arith) (ground arith))
  slots-set_next xs v out (suc n) i lt room big e =
      ap₂ ◌∷◌ (get_or-set_other xs v i out d (ground arith)) (
        slots-set_next xs v (wrap cap (out + 1)) n i (ground arith) (omega arith) big
          (ground arith))

  -- `slots` matches on `suc`, and the code tests for 0 and subtracts 1.
  pub slots_of_pos :
      (xs : List A) (out n : ℕ)
      → 0 < n
      → slots xs out n ≡ get_or xs out d ∷ slots xs (wrap cap (out + 1)) (n - 1)
  slots_of_pos xs out zero h = absurd (omega arith)
  slots_of_pos xs out (suc n) h =
      ap (λ k. get_or xs out d ∷ slots xs (wrap cap (out + 1)) k) (omega arith)

-- Slots depend on what is read at their indices only.
pub slots_ext {ℓ} :
    {A : Type ℓ} (d : A) (cap cap' : ℕ) (xs ys : List A) (out out' n : ℕ)
    → ((k : ℕ) → k < n → get_or xs (wrap cap (out + k)) d ≡ get_or ys (wrap cap' (out' + k)) d)
    → (0 < n → out < cap)
    → (0 < n → out' < cap')
    → n ≤ cap
    → n ≤ cap'
    → slots d cap xs out n ≡ slots d cap' ys out' n
slots_ext d cap cap' xs ys out out' zero same lt lt' small small' = refl
slots_ext d cap cap' xs ys out out' (suc n) same lt lt' small small' = ap₂ ◌∷◌ first (
    slots_ext d cap cap' xs ys (wrap cap (out + 1)) (wrap cap' (out' + 1)) n later
      (λ _. ground (arith, lt (omega arith))) (λ _. ground (arith, lt' (omega arith))) (omega arith)
      (omega arith))
  where
    first : get_or xs out d ≡ get_or ys out' d
    first = ground (arith, same 0, lt (omega arith), lt' (omega arith))

    step : (c o k : ℕ) → o < c → k + 1 < c → wrap c (wrap c (o + 1) + k) ≡ wrap c (o + (k + 1))
    step c o k lt small = ground arith

    later :
        (k : ℕ)
        → k < n
        → get_or xs (wrap cap (wrap cap (out + 1) + k)) d
          ≡ get_or ys (wrap cap' (wrap cap' (out' + 1) + k)) d
    later k below = cc (
      step cap out k (lt (omega arith)) (omega arith),
      step cap' out' k (lt' (omega arith)) (omega arith),
      same (k + 1) (omega arith),
    )
