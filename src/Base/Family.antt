-- ===== src/Base/Family.antt =====
-- Families indexed by process or thread: a change at one index, and how many of the first `n`
-- members a test counts.
use Prim.Native.Nat.{ℕ, zero, suc, ◌+◌, ◌≤◌, ◌<◌}
use mathlib.Core.Path.{◌≡◌, refl}
use mathlib.Core.Logic.{◌≢◌, ◌⊎◌, inl, inr, ite}
use native.Mathlib.Decide.{dec_lt, ℕ_discrete}
use native.Mathlib.Omega.{arith}

abbrev pub update {ℓ} : {A : Type ℓ} → (ℕ → A) → ℕ → A → ℕ → A
update f i a j = ite (ℕ_discrete i j) a (f j)

module _ {ℓ} {A : Type ℓ} (w : A → ℕ) where
  pub number : ℕ → (ℕ → A) → ℕ
  number zero f = 0
  number (suc n) f = w (f n) + number n f

  number-update_above :
      (n : ℕ) (f : ℕ → A) (i : ℕ) (a : A) → n ≤ i → number n (update f i a) ≡ number n f
  unfolding number
  number-update_above zero f i a h = refl
  number-update_above (suc n) f i a h = ground (arith, number-update_above n f i a)

  -- A change at `i` takes the old member's weight away and adds the new one's.
  pub number-update :
      (n : ℕ) (f : ℕ → A) (i : ℕ) (a : A)
      → i < n
      → number n (update f i a) + w (f i) ≡ number n f + w a
  unfolding number
  number-update zero f i a h = absurd (omega arith)
  number-update (suc n) f i a h = elim (dec_lt i n) [
    | yes below ↦ ground (arith, number-update n f i a below)
    | no here ↦ ground (arith, number-update_above n f i a)
  ]

  pub weight-le-number : (n : ℕ) (f : ℕ → A) (i : ℕ) → i < n → w (f i) ≤ number n f
  unfolding number
  weight-le-number zero f i h = absurd (omega arith)
  weight-le-number (suc n) f i h = elim (dec_lt i n) [
    | yes below ↦ omega (arith, weight-le-number n f i below)
    | no here ↦ ground arith
  ]

  -- Two members both count.
  pub weights-le-number :
      (n : ℕ) (f : ℕ → A) (i j : ℕ) → i < n → j < n → i ≢ j → w (f i) + w (f j) ≤ number n f
  unfolding number
  weights-le-number zero f i j hi hj ne = absurd (omega arith)
  weights-le-number (suc n) f i j hi hj ne = elim (dec_lt i n) [
    | yes below ↦ elim (dec_lt j n) [
      | yes below' ↦ omega (arith, weights-le-number n f i j below below' ne)
      | no here' ↦ ground (arith, weight-le-number n f i below)
    ]
    | no here ↦ ground (arith, weight-le-number n f j (omega arith))
  ]

  pub number-eq-zero : (n : ℕ) (f : ℕ → A) → ((i : ℕ) → w (f i) ≡ 0) → number n f ≡ 0
  unfolding number
  number-eq-zero zero f h = refl
  number-eq-zero (suc n) f h = omega (arith, h n, number-eq-zero n f h)

  pub number-all : (n : ℕ) (f : ℕ → A) → ((i : ℕ) → i < n → w (f i) ≡ 1) → number n f ≡ n
  unfolding number
  number-all zero f h = refl
  number-all (suc n) f h =
      omega (arith, h n (omega arith), number-all n f (λ i lt. h i (omega arith)))

  pub number-const : (n : ℕ) (a : A) → w a ≡ 1 → number n (λ _. a) ≡ n
  number-const n a h = number-all n (λ _. a) (λ i lt. h)

  pub number-le_const : (n : ℕ) (f : ℕ → A) → ((a : A) → w a ≤ 1) → number n f ≤ n
  unfolding number
  number-le_const zero f h = omega arith
  number-le_const (suc n) f h = omega (arith, h (f n), number-le_const n f h)

  pub number-eq-zero_below : (n : ℕ) (f : ℕ → A) → ((i : ℕ) → i < n → w (f i) ≡ 0) → number n f ≡ 0
  unfolding number
  number-eq-zero_below zero f h = refl
  number-eq-zero_below (suc n) f h =
      omega (arith, h n (omega arith), number-eq-zero_below n f (λ i lt. h i (omega arith)))

  -- Where all members count, each does.
  pub number-full :
      (n : ℕ) (f : ℕ → A) (i : ℕ) → ((a : A) → w a ≤ 1) → i < n → n ≤ number n f → w (f i) ≡ 1
  unfolding number
  number-full zero f i h lt full = absurd (omega arith)
  number-full (suc n) f i h lt full = elim (dec_lt i n) [
    | yes below ↦ number-full n f i h below (omega (arith, h (f n)))
    | no here ↦ ground (arith, h (f n), number-le_const n f h)
  ]

  -- Some member counts, or none does.
  pub number-find : (n : ℕ) (f : ℕ → A) → ((i : ℕ) × (i < n) × (0 < w (f i))) ⊎ (number n f ≡ 0)
  unfolding number
  number-find zero f = inr refl
  number-find (suc n) f = elim (dec_lt 0 (w (f n))) [
    | yes here ↦ inl (n, omega arith, here)
    | no nothing ↦ elim (number-find n f) [
      | inl (i, lt, pos) ↦ inl (i, omega arith, pos)
      | inr none ↦ inr (omega arith)
    ]
  ]

-- A change of all members changes the sum as it changes each weight.
pub number-map {ℓ} :
    {A : Type ℓ} (w u v : A → ℕ) (g : A → A)
    → ((a : A) → w (g a) ≡ u a + v a)
    → (n : ℕ) (f : ℕ → A) → number w n (λ i. g (f i)) ≡ number u n f + number v n f
unfolding number
number-map w u v g h zero f = refl
number-map w u v g h (suc n) f = omega (arith, number-map w u v g h n f, h (f n))
