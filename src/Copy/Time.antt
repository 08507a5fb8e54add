-- ===== src/Copy/Time.antt =====
-- The total time that `main` of HW4/src/210104004023_main.c prints.
use gtu_cse344_system_progra.Base.{
  ℕ, ◌+◌, ◌-◌, ◌*◌, ◌/◌, ◌%◌, ◌<◌, ◌≤◌, ◌≡◌, refl, ap₂, sym, ◌∙◌, subst, true, false, Bool-cases,
  inl, inr, arith, if◌then◌else◌, ltb,
}
use gtu_cse344_system_progra.Base.Int.{ℤ, pos, negsuc, ◌+ℤ◌, ◌-ℤ◌, ltb_ℤ, quot_ℤ, rem_ℤ}

-- `struct timeval`
pub record Timeval : Type 0 where
  pub tv_sec : ℕ
  pub tv_usec : ℕ

pub record Elapsed : Type 0 where
  pub minutes : ℤ
  pub seconds : ℤ
  pub milliseconds : ℤ

abbrev pub in_units : ℤ → ℤ → Elapsed
in_units seconds microseconds = record {
  minutes = quot_ℤ seconds 60;
  seconds = rem_ℤ seconds 60;
  milliseconds = quot_ℤ microseconds 1000;
}

-- A difference below 0 in the microseconds is carried over.
unfoldable pub carry : ℤ → ℤ → Elapsed
unfolding ◌+ℤ◌ ◌-ℤ◌ quot_ℤ rem_ℤ
carry seconds microseconds =
    if ltb_ℤ microseconds (pos 0)
    then in_units (seconds -ℤ pos 1) (microseconds +ℤ pos 1000000)
    else in_units seconds microseconds

unfoldable pub elapsed : Timeval → Timeval → Elapsed
unfolding carry ◌-ℤ◌
elapsed start end =
    carry (pos end.tv_sec -ℤ pos start.tv_sec) (pos end.tv_usec -ℤ pos start.tv_usec)

abbrev pub micros : Timeval → ℕ
micros t = t.tv_sec * 1000000 + t.tv_usec

abbrev pub Reads : Elapsed → ℕ → ℕ → ℕ → Type 0
Reads e m s ms = (e.minutes ≡ pos m) × (e.seconds ≡ pos s) × (e.milliseconds ≡ pos ms)

diff : (a b : ℕ) → b ≤ a → pos a -ℤ pos b ≡ pos (a - b)
unfolding ◌-ℤ◌
diff a b h = ground arith

diff_neg : (a b : ℕ) → a < b → pos a -ℤ pos b ≡ negsuc (b - a - 1)
unfolding ◌-ℤ◌
diff_neg a b h = ground arith

add_million : (u : ℕ) → u < 1000000 → negsuc u +ℤ pos 1000000 ≡ pos (999999 - u)
unfolding ◌+ℤ◌
add_million u h = ground arith

carry_pos : (s u : ℕ) → carry (pos s) (pos u) ≡ in_units (pos s) (pos u)
unfolding carry
carry_pos s u = rw (ltb_ℤ-pos u) refl
  where
    ltb_ℤ-pos : (u : ℕ) → ltb_ℤ (pos u) (pos 0) ≡ false
    ltb_ℤ-pos u = ground arith

carry_neg :
    (s u : ℕ)
    → 1 ≤ s
    → u < 1000000
    → carry (pos s) (negsuc u) ≡ in_units (pos (s - 1)) (pos (999999 - u))
unfolding carry
carry_neg s u h k = rw (ltb_ℤ-negsuc u) (ap₂ in_units (diff s 1 h) (add_million u k))
  where
    ltb_ℤ-negsuc : (u : ℕ) → ltb_ℤ (negsuc u) (pos 0) ≡ true
    ltb_ℤ-negsuc u = ground arith

-- A number of seconds, and of microseconds below a million, and the parts that `main` prints.
abbrev Parts : Elapsed → ℕ → ℕ → Type 0
Parts e total micro =
    (m : ℕ) × (s : ℕ) × (ms : ℕ) × (rest : ℕ) × Reads e m s ms
    × (s < 60)
    × (ms < 1000)
    × (rest < 1000)
    × (((m * 60 + s) * 1000 + ms) * 1000 + rest ≡ total * 1000000 + micro)

in_units-Parts :
    (total micro : ℕ) → micro < 1000000 → Parts (in_units (pos total) (pos micro)) total micro
unfolding quot_ℤ rem_ℤ
in_units-Parts total micro h = (
  total / 60,
  total % 60,
  micro / 1000,
  micro % 1000,
  (refl, refl, refl),
  omega arith,
  omega arith,
  omega arith,
  omega arith,
)

elapsed_parts :
    (start end : Timeval)
    → start.tv_usec < 1000000
    → end.tv_usec < 1000000
    → micros start ≤ micros end
    → (total : ℕ) × (micro : ℕ) × (micro < 1000000)
      × (elapsed start end ≡ in_units (pos total) (pos micro))
      × (micros start + (total * 1000000 + micro) ≡ micros end)
unfolding elapsed
elapsed_parts start end h k before = elim (Bool-cases (ltb end.tv_usec start.tv_usec)) [
  | inl e ↦ (
    end.tv_sec - start.tv_sec - 1,
    999999 - (start.tv_usec - end.tv_usec - 1),
    omega arith,
    ap₂ carry (diff end.tv_sec start.tv_sec (ground (arith, e)))
          (diff_neg end.tv_usec start.tv_usec (ground (arith, e)))
        ∙ carry_neg (end.tv_sec - start.tv_sec) (start.tv_usec - end.tv_usec - 1)
            (ground (arith, e)) (omega arith),
    ground (arith, e),
  )
  | inr e ↦ (
    end.tv_sec - start.tv_sec,
    end.tv_usec - start.tv_usec,
    omega arith,
    ap₂ carry (diff end.tv_sec start.tv_sec (ground (arith, e)))
          (diff end.tv_usec start.tv_usec (ground (arith, e)))
        ∙ carry_pos (end.tv_sec - start.tv_sec) (end.tv_usec - start.tv_usec),
    ground (arith, e),
  )
]

-- Between two times with microseconds below a million, the end not before the start, `main` prints
-- less than 60 seconds and less than 1000 milliseconds, and with the minutes they make up the time
-- that has passed, but for the microseconds below the last millisecond.
pub elapsed_exact :
    (start end : Timeval)
    → start.tv_usec < 1000000
    → end.tv_usec < 1000000
    → micros start ≤ micros end
    → (m : ℕ) × (s : ℕ) × (ms : ℕ) × (rest : ℕ) × Reads (elapsed start end) m s ms
      × (s < 60)
      × (ms < 1000)
      × (rest < 1000)
      × (micros start + (((m * 60 + s) * 1000 + ms) * 1000 + rest) ≡ micros end)
elapsed_exact start end h k before =
    let (total, micro, lt, same, sum) = elapsed_parts start end h k before in
    let (m, s, ms, rest, reads, a, b, c, d) = in_units-Parts total micro lt in
    (m, s, ms, rest, subst (λ x. Reads x m s ms) (sym same) reads, a, b, c, omega (arith, sum, d))
