-- ===== src/Children/Words.antt =====
-- An `int` as the four bytes that a FIFO carries.
use gtu_cse344_system_progra.Base.{ℕ, ◌+◌, ◌*◌, ◌/◌, ◌%◌, ◌<◌, ◌≡◌, List, [], ◌∷◌, arith}

abbrev pub Bytes : Type 0
Bytes = List ℕ

abbrev pub int_bytes : ℕ → Bytes
int_bytes n = n % 256 ∷ n / 256 % 256 ∷ n / 65536 % 256 ∷ n / 16777216 % 256 ∷ []

abbrev pub bytes_int : Bytes → ℕ
bytes_int [] = 0
bytes_int (b ∷ bs) = b + 256 * bytes_int bs

pub bytes_int-int_bytes : (n : ℕ) → n < 4294967296 → bytes_int (int_bytes n) ≡ n
bytes_int-int_bytes n h = omega arith
