-- ===== src/Server/Sync/Invariant.antt =====
-- What holds of the lock and of the processes at every moment: how many stand where.
use gtu_cse344_system_progra.Base.{ℕ, ◌+◌, ◌<◌, ◌≡◌, ◌==◌, refl, if◌then◌else◌, arith, min}
use gtu_cse344_system_progra.Base.Family.{update, number, number-update, number-eq-zero}
use gtu_cse344_system_progra.Server.Sync.Lock.{
  Lock, Pc, outside, counted, admitted, reading, uncounted, released, queued, writing, leaving,
  Move, count_in, first_reader, later_reader, read_unlock, count_out, last_reader, other_reader,
  exit_unlock, write_lock, write_enter, write_exit, write_unlock, System, Step, turn, fresh, Reach,
  start, next,
}

abbrev pub place_of : Pc → ℕ
place_of outside = 0
place_of counted = 1
place_of admitted = 2
place_of reading = 3
place_of uncounted = 4
place_of released = 5
place_of queued = 6
place_of writing = 7
place_of leaving = 8

-- Whether a process stands at the given place, as a number.
abbrev pub at : Pc → Pc → ℕ
at p q = if place_of p == place_of q then 1 else 0

abbrev pub count_at : Pc → ℕ → (ℕ → Pc) → ℕ
count_at p n pc = number (at p) n pc

-- One process at most has `reader_mutex`; the count is that of the readers who have been counted;
-- and the writer's semaphore is taken by one writer or by the readers together.
pub record Inv (n : ℕ) (m : Lock) (pc : ℕ → Pc) : Type 0 where
  pub mutex :
      m.reader_mutex
        + count_at counted n pc
        + count_at admitted n pc
        + count_at uncounted n pc
        + count_at released n pc
        + count_at writing n pc
      ≡ 1
  pub readers :
      m.reader_count ≡ count_at counted n pc + count_at admitted n pc + count_at reading n pc
  pub writers :
      m.writer_mutex
        + count_at queued n pc
        + count_at writing n pc
        + count_at leaving n pc
        + min 1 (count_at admitted n pc + count_at reading n pc + count_at uncounted n pc)
      ≡ 1

-- What the move of process `i` from `p` to `p'` does to the number at each place.
abbrev Moved : Pc → Pc → Pc → ℕ → (ℕ → Pc) → ℕ → Type 0
Moved c p p' n pc i = count_at c n (update pc i p') + at c p ≡ count_at c n pc + at c p'

record Changes (p p' : Pc) (n : ℕ) (pc : ℕ → Pc) (i : ℕ) : Type 0 where
  of_counted : Moved counted p p' n pc i
  of_admitted : Moved admitted p p' n pc i
  of_reading : Moved reading p p' n pc i
  of_uncounted : Moved uncounted p p' n pc i
  of_released : Moved released p p' n pc i
  of_queued : Moved queued p p' n pc i
  of_writing : Moved writing p p' n pc i
  of_leaving : Moved leaving p p' n pc i

changes : (p' : Pc) (n : ℕ) (pc : ℕ → Pc) (i : ℕ) → i < n → Changes (pc i) p' n pc i
changes p' n pc i lt = record {
  of_counted = number-update (at counted) n pc i p' lt;
  of_admitted = number-update (at admitted) n pc i p' lt;
  of_reading = number-update (at reading) n pc i p' lt;
  of_uncounted = number-update (at uncounted) n pc i p' lt;
  of_released = number-update (at released) n pc i p' lt;
  of_queued = number-update (at queued) n pc i p' lt;
  of_writing = number-update (at writing) n pc i p' lt;
  of_leaving = number-update (at leaving) n pc i p' lt;
}

Move-Inv :
    (n i : ℕ) (pc : ℕ → Pc) {m m' : Lock} {p p' : Pc}
    → Move m p m' p'
    → Changes p p' n pc i
    → Inv n m pc
    → Inv n m' (update pc i p')
Move-Inv n i pc (count_in g) ch inv = omega arith
Move-Inv n i pc (first_reader e g) ch inv = omega arith
Move-Inv n i pc (later_reader e) ch inv = omega arith
Move-Inv n i pc read_unlock ch inv = omega arith
Move-Inv n i pc (count_out g) ch inv = omega arith
Move-Inv n i pc (last_reader e) ch inv = omega arith
Move-Inv n i pc (other_reader e) ch inv = omega arith
Move-Inv n i pc exit_unlock ch inv = omega arith
Move-Inv n i pc (write_lock g) ch inv = omega arith
Move-Inv n i pc (write_enter g) ch inv = omega arith
Move-Inv n i pc write_exit ch inv = omega arith
Move-Inv n i pc write_unlock ch inv = omega arith

none_at : (c : Pc) (n : ℕ) → at c outside ≡ 0 → count_at c n (λ _. outside) ≡ 0
none_at c n h = number-eq-zero (at c) n (λ _. outside) (λ _. h)

pub fresh-Inv : (n : ℕ) → Inv n fresh.lock fresh.pc
fresh-Inv n = omega (
  arith,
  none_at counted n refl,
  none_at admitted n refl,
  none_at reading n refl,
  none_at uncounted n refl,
  none_at released n refl,
  none_at queued n refl,
  none_at writing n refl,
  none_at leaving n refl,
)

pub Step-Inv : {n : ℕ} {s t : System} → Step n s t → Inv n s.lock s.pc → Inv n t.lock t.pc
Step-Inv {n} {s} (turn i {p = p'} lt mv) inv = Move-Inv n i s.pc mv (changes p' n s.pc i lt) inv

pub Reach-Inv : {n : ℕ} {s : System} → Reach n s → Inv n s.lock s.pc
Reach-Inv {n} start = fresh-Inv n
Reach-Inv (next r st) = Step-Inv st (Reach-Inv r)
