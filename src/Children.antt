-- ===== src/Children.antt =====
-- HW2/src/main.c: a parent sends an array to two children over two FIFOs. The first child adds the
-- numbers and sends the sum to the second, which multiplies them and prints both. The calls are taken
-- to succeed; a FIFO has room for what is written.
pub mod Words
pub mod Inv
pub mod Keeps
pub mod Moves
pub mod Steps
pub mod Safety
pub mod Race
pub mod Program
mod Tests
use gtu_cse344_system_progra.Base.{
  false, ◌||◌, ℕ, zero, suc, ◌+◌, ◌*◌, ◌%◌, ◌^◌, ◌<◌, ◌≡◌, true, Bool, Option, none, some, List, [],
  ◌∷◌, ◌++◌, length, take, drop, if◌then◌else◌, map,
}
use gtu_cse344_system_progra.Base.Strings.{same_name, c_string, codes}
use gtu_cse344_system_progra.Children.Words.{Bytes, int_bytes, bytes_int}

-- The numbers of `rand`, brought into 1 to 10.
unfoldable pub fill : List ℕ → List ℕ
fill [] = []
fill (r ∷ rs) = (r % 10 + 1) ∷ fill rs

-- An `int` is its bit pattern, so that sums and products wrap.
abbrev pub int_mod : ℕ
int_mod = 2 ^ 32

unfoldable pub sum_from : ℕ → List ℕ → ℕ
sum_from s [] = s
sum_from s (x ∷ xs) = sum_from ((s + x) % int_mod) xs

unfoldable pub product_from : ℕ → List ℕ → ℕ
product_from r [] = r
product_from r (x ∷ xs) = product_from ((r * x) % int_mod) xs

-- `multiply`, with its byte 0.
abbrev pub command : Bytes
command = b'm' ∷ b'u' ∷ b'l' ∷ b't' ∷ b'i' ∷ b'p' ∷ b'l' ∷ b'y' ∷ 0 ∷ []

-- What a process is about to do.
pub data Parent : Type 0 where
  opens_fifo2 closes_fifo2 opens_fifo1 waits_for_children : Parent
  writes_fifo2 writes_fifo1 : List ℕ → Parent

pub data Adder : Type 0 where
  opens_input closes_output added killed : Adder
  adds : ℕ → ℕ → Adder  -- how many numbers are left, and the sum so far
  opens_output writes_sum : ℕ → Adder

pub data Multiplier : Type 0 where
  opens_array refused : Multiplier
  reads_array : ℕ → List ℕ → Multiplier  -- how many are left, and what was read
  has_command : Bytes → List ℕ → Multiplier
  opens_again reads_sum : ℕ → Multiplier
  prints : Option ℕ → ℕ → Multiplier  -- no sum: the variable as it was at first

pub record World : Type 0 where
  pub parent : Parent
  pub adder : Adder
  pub multiplier : Multiplier
  pub fifo1 : Bytes
  pub fifo2 : Bytes

-- Who has FIFO2 open.
abbrev pub parent_writes : Parent → Bool
parent_writes (writes_fifo2 xs) = true
parent_writes closes_fifo2 = true
parent_writes opens_fifo2 = false
parent_writes opens_fifo1 = false
parent_writes (writes_fifo1 xs) = false
parent_writes waits_for_children = false

abbrev pub adder_writes : Adder → Bool
adder_writes (writes_sum s) = true
adder_writes closes_output = true
adder_writes opens_input = false
adder_writes (adds k s) = false
adder_writes (opens_output s) = false
adder_writes added = false
adder_writes killed = false

abbrev pub is_read : Multiplier → Bool
is_read (reads_array k xs) = true
is_read (has_command c xs) = true
is_read (reads_sum r) = true
is_read opens_array = false
is_read refused = false
is_read (opens_again r) = false
is_read (prints v r) = false

abbrev pub is_written : World → Bool
is_written w = parent_writes w.parent || adder_writes w.adder

-- Behind the close of the second child: bytes that nobody has open are gone.
abbrev pub left_over : World → Bytes
left_over w = if is_written w then w.fifo2 else []

abbrev pub after_command : Bytes → List ℕ → Multiplier
after_command c xs =
    if same_name (c_string c) (codes "multiply") then opens_again (product_from 1 xs) else refused

-- An open of a FIFO waits for the other side; a read waits while the FIFO is empty and is written.
pub data Step (a : List ℕ) (w : World) : World → Type 0 where
  meet_fifo2 :
      w.parent ≡ opens_fifo2
      → w.multiplier ≡ opens_array
      → Step a w (record w { parent = writes_fifo2 a; multiplier = reads_array (length a) [] })
  write_number :
      {x : ℕ} {xs : List ℕ}
      → w.parent ≡ writes_fifo2 (x ∷ xs)
      → Step a w (record w { parent = writes_fifo2 xs; fifo2 = w.fifo2 ++ int_bytes x })
  write_command :
      w.parent ≡ writes_fifo2 []
      → Step a w (record w { parent = closes_fifo2; fifo2 = w.fifo2 ++ command })
  close_fifo2 :
      w.parent ≡ closes_fifo2
      → Step a w
          (record w { parent = opens_fifo1; fifo2 = if is_read w.multiplier then w.fifo2 else [] })
  meet_fifo1 :
      w.parent ≡ opens_fifo1
      → w.adder ≡ opens_input
      → Step a w (record w { parent = writes_fifo1 a; adder = adds (length a) 0 })
  write_addend :
      {x : ℕ} {xs : List ℕ}
      → w.parent ≡ writes_fifo1 (x ∷ xs)
      → Step a w (record w { parent = writes_fifo1 xs; fifo1 = w.fifo1 ++ int_bytes x })
  close_fifo1 : w.parent ≡ writes_fifo1 [] → Step a w (record w { parent = waits_for_children })
  add_number :
      {k s : ℕ}
      → w.adder ≡ adds (suc k) s
      → 0 < length w.fifo1
      → Step a w (record w {
        adder = adds k ((s + bytes_int (take 4 w.fifo1)) % int_mod);
        fifo1 = drop 4 w.fifo1;
      })
  close_input : {s : ℕ} → w.adder ≡ adds 0 s → Step a w (record w { adder = opens_output s })
  open_output :
      {s : ℕ}
      → w.adder ≡ opens_output s
      → is_read w.multiplier ≡ true
      → Step a w (record w { adder = writes_sum s })
  meet_again :
      {s r : ℕ}
      → w.adder ≡ opens_output s
      → w.multiplier ≡ opens_again r
      → Step a w (record w { adder = writes_sum s; multiplier = reads_sum r })
  write_sum :
      {s : ℕ}
      → w.adder ≡ writes_sum s
      → is_read w.multiplier ≡ true
      → Step a w (record w { adder = closes_output; fifo2 = w.fifo2 ++ int_bytes s })
  broken_pipe :
      {s : ℕ}
      → w.adder ≡ writes_sum s
      → is_read w.multiplier ≡ false
      → Step a w (record w { adder = killed })
  close_output :
      w.adder ≡ closes_output
      → Step a w (record w { adder = added; fifo2 = if is_read w.multiplier then w.fifo2 else [] })
  read_number :
      {k : ℕ} {xs : List ℕ}
      → w.multiplier ≡ reads_array (suc k) xs
      → 0 < length w.fifo2
      → Step a w (record w {
        multiplier = reads_array k (xs ++ (bytes_int (take 4 w.fifo2) ∷ []));
        fifo2 = drop 4 w.fifo2;
      })
  read_command :
      {xs : List ℕ}
      → w.multiplier ≡ reads_array 0 xs
      → 0 < length w.fifo2
      → Step a w
          (record w { multiplier = has_command (take 20 w.fifo2) xs; fifo2 = drop 20 w.fifo2 })
  close_array :
      {c : Bytes} {xs : List ℕ}
      → w.multiplier ≡ has_command c xs
      → Step a w (record w { multiplier = after_command c xs; fifo2 = left_over w })
  open_again :
      {r : ℕ}
      → w.multiplier ≡ opens_again r
      → is_written w ≡ true
      → Step a w (record w { multiplier = reads_sum r })
  read_sum :
      {r : ℕ}
      → w.multiplier ≡ reads_sum r
      → 0 < length w.fifo2
      → Step a w (record w {
        multiplier = prints (some (bytes_int (take 4 w.fifo2))) r;
        fifo2 = drop 4 w.fifo2;
      })
  read_nothing :
      {r : ℕ}
      → w.multiplier ≡ reads_sum r
      → w.fifo2 ≡ []
      → is_written w ≡ false
      → Step a w (record w { multiplier = prints none r })

abbrev pub at_first : World
at_first = record {
  parent = opens_fifo2;
  adder = opens_input;
  multiplier = opens_array;
  fifo1 = [];
  fifo2 = [];
}

pub data Run (a : List ℕ) (w : World) : World → Type 0 where
  stop : Run a w w
  then : {v u : World} → Run a w v → Step a v u → Run a w u
