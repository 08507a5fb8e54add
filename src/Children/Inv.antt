-- ===== src/Children/Inv.antt =====
-- What holds in every reachable state of the three processes.
use gtu_cse344_system_progra.Base.{
  ℕ, ◌+◌, ◌%◌, ◌≡◌, ◌≢◌, refl, ap, ◌⊎◌, Bool, true, false, Option, none, some, List, [], ◌∷◌, ◌++◌,
  length, if◌then◌else◌,
}
use gtu_cse344_system_progra.Base.Strings.{c_string, codes}
use gtu_cse344_system_progra.Children.Words.{Bytes, int_bytes}
use gtu_cse344_system_progra.Children.{
  int_mod, sum_from, product_from, command, Parent, opens_fifo2, closes_fifo2, opens_fifo1,
  waits_for_children, writes_fifo2, writes_fifo1, Adder, opens_input, closes_output, added, killed,
  adds, opens_output, writes_sum, Multiplier, opens_array, refused, reads_array, has_command,
  opens_again, reads_sum, prints, World,
}

abbrev pub ints : List ℕ → Bytes
ints [] = []
ints (x ∷ xs) = int_bytes x ++ ints xs

-- What the parent has still to write, and what it has sent behind the array.
abbrev pub pending2 : Parent → List ℕ
pending2 (writes_fifo2 xs) = xs
pending2 opens_fifo2 = []
pending2 closes_fifo2 = []
pending2 opens_fifo1 = []
pending2 (writes_fifo1 xs) = []
pending2 waits_for_children = []

abbrev pub pending1 : Parent → List ℕ
pending1 (writes_fifo1 xs) = xs
pending1 opens_fifo2 = []
pending1 closes_fifo2 = []
pending1 opens_fifo1 = []
pending1 (writes_fifo2 xs) = []
pending1 waits_for_children = []

-- The parent is behind its command, or behind the first child's opening of FIFO1.
abbrev pub past : Parent → Bool
past (writes_fifo2 xs) = false
past opens_fifo2 = false
past closes_fifo2 = true
past opens_fifo1 = true
past (writes_fifo1 xs) = true
past waits_for_children = true

abbrev pub late : Parent → Bool
late (writes_fifo2 xs) = false
late opens_fifo2 = false
late closes_fifo2 = false
late opens_fifo1 = false
late (writes_fifo1 xs) = true
late waits_for_children = true

abbrev pub sent : Parent → Bytes
sent p = if past p then command else []

-- The first child has written the sum.
abbrev pub wrote : Adder → Bool
wrote closes_output = true
wrote added = true
wrote opens_input = false
wrote killed = false
wrote (adds k s) = false
wrote (opens_output s) = false
wrote (writes_sum s) = false

module _ (a : List ℕ) where
  abbrev pub the_sum : ℕ
  the_sum = sum_from 0 a

  abbrev pub the_product : ℕ
  the_product = product_from 1 a

  abbrev pub out_bytes : Adder → Bytes
  out_bytes ad = if wrote ad then int_bytes the_sum else []

  abbrev pub AdderInv : Adder → Parent → Bytes → Type 0
  AdderInv opens_input p f = (late p ≡ false) × (f ≡ [])
  AdderInv (adds k s) p f =
      (late p ≡ true)
      × (vs : List ℕ) × (us : List ℕ) × (vs ++ (us ++ pending1 p) ≡ a)
      × (k ≡ length us + length (pending1 p))
      × (f ≡ ints us)
      × (s ≡ sum_from 0 vs)
  AdderInv (opens_output s) p f = (late p ≡ true) × (s ≡ the_sum)
  AdderInv (writes_sum s) p f = (late p ≡ true) × (s ≡ the_sum)
  AdderInv closes_output p f = late p ≡ true
  AdderInv added p f = late p ≡ true
  AdderInv killed p f = late p ≡ true

  -- Behind the command FIFO2 holds the sum or nothing.
  abbrev pub Rest : Adder → Bytes → Type 0
  Rest ad f = (f ≡ []) ⊎ ((f ≡ int_bytes the_sum) × (wrote ad ≡ true))

  abbrev pub IsRight : Option ℕ → Type 0
  IsRight none = Unit
  IsRight (some v) = v ≡ the_sum

  abbrev pub MultiplierInv : Multiplier → Parent → Adder → Bytes → Type 0
  MultiplierInv opens_array p ad f = (p ≡ opens_fifo2) × (f ≡ [])
  MultiplierInv refused p ad f = ⊥
  MultiplierInv (reads_array k xs) p ad f =
      (p ≢ opens_fifo2)
      × (us : List ℕ) × (xs ++ (us ++ pending2 p) ≡ a)
      × (k ≡ length us + length (pending2 p))
      × (f ≡ ints us ++ (sent p ++ out_bytes ad))
  MultiplierInv (has_command c xs) p ad f =
      (past p ≡ true) × (xs ≡ a) × (c_string c ≡ codes "multiply") × Rest ad f
  MultiplierInv (opens_again r) p ad f = (past p ≡ true) × (r ≡ the_product) × Rest ad f
  MultiplierInv (reads_sum r) p ad f = (past p ≡ true) × (r ≡ the_product) × Rest ad f
  MultiplierInv (prints v r) p ad f = (past p ≡ true) × (r ≡ the_product) × IsRight v

  pub record Inv (w : World) : Type 0 where
    pub adder_inv : AdderInv w.adder w.parent w.fifo1
    pub multiplier_inv : MultiplierInv w.multiplier w.parent w.adder w.fifo2

pub late-past : (p : Parent) → late p ≡ true → past p ≡ true
late-past (writes_fifo2 xs) h = cc
late-past opens_fifo2 h = cc
late-past closes_fifo2 h = refl
late-past opens_fifo1 h = refl
late-past (writes_fifo1 xs) h = refl
late-past waits_for_children h = refl

pub pending2-past : (p : Parent) → past p ≡ true → pending2 p ≡ []
pending2-past (writes_fifo2 xs) h = cc
pending2-past opens_fifo2 h = refl
pending2-past closes_fifo2 h = refl
pending2-past opens_fifo1 h = refl
pending2-past (writes_fifo1 xs) h = refl
pending2-past waits_for_children h = refl

pub ints-append : (us vs : List ℕ) → ints (us ++ vs) ≡ ints us ++ ints vs
ints-append [] vs = refl
ints-append (u ∷ us) vs = ap (λ b. int_bytes u ++ b) (ints-append us vs)

pub sum_from_last :
    (s : ℕ) (vs : List ℕ) (x : ℕ) → sum_from s (vs ++ (x ∷ [])) ≡ (sum_from s vs + x) % int_mod
unfolding sum_from
sum_from_last s [] x = refl
sum_from_last s (v ∷ vs) x = sum_from_last ((s + v) % int_mod) vs x
