-- ===== src/Children/Program/Ending.antt =====
-- How `main` of HW2/src/main.c ends: what stays behind, and what it sent to its children.
use gtu_cse344_system_progra.Children.Program.{waiting}
use gtu_cse344_system_progra.Base.{inl}
use gtu_cse344_system_progra.Children.Program.{Point}
use gtu_cse344_system_progra.Base.{inr}
use gtu_cse344_system_progra.Children.Program.{sigint_handler}
use gtu_cse344_system_progra.Base.{Bool-cases}
use gtu_cse344_system_progra.Children.Program.{before_open1}
use gtu_cse344_system_progra.Children.Program.{cleaned}
use gtu_cse344_system_progra.Children.Program.{unless_signal}
use gtu_cse344_system_progra.Base.{
  if◌then◌else◌, inl, inr, Bool-cases, ℕ, ◌+◌, ◌≡◌, refl, Bool, true, false, not, ◌&&◌, ◌||◌, some,
  List, [], leb, arith,
}
use gtu_cse344_system_progra.Base.Int.{ℤ, pos, ltb_ℤ}
use gtu_cse344_system_progra.Children.{fill}
use gtu_cse344_system_progra.Children.Program.{
  Point, at_input, before_fifo1, before_fifo2, before_array, before_fork2, before_fork1,
  before_open2, before_open1, waiting, at_first, unless_signal, sigint_handler, fork_child1,
  make_array, make_fifo1, make_fifo2, cleaned, Calls, Held, Ended, write_all, wait_children,
  sigkill_handler, after_wait, wait_fuel, send_fifo1, send_fifo2, fork_children, main,
}

-- One of the first four tests finds both children ended.
abbrev pub ended_in_time : (ℕ → ℕ) → Bool
ended_in_time counter =
    leb 2 (counter 0) || leb 2 (counter 1) || leb 2 (counter 2) || leb 2 (counter 3)

-- The fuel of the waiting loop is enough: four tests decide, and more fuel changes nothing.
pub wait_children_decides :
    (fuel : ℕ) (counter : ℕ → ℕ)
    → wait_children (wait_fuel + fuel) counter 0 ≡ some (ended_in_time counter)
unfolding wait_children
wait_children_decides fuel counter = ground arith

-- What is left of the FIFOs and the array: where a signal has ended the program, no FIFO, and the exit
-- status is 1; else FIFO1 where `b1` holds, FIFO2 where `b2` does, and no array.
abbrev pub Leaves : Bool → Bool → Ended → Type 0
Leaves b1 b2 e =
    (e.1.fifo1 ≡ (if e.1.interrupted then false else b1))
    × (e.1.fifo2 ≡ (if e.1.interrupted then false else b2))
    × (e.1.array ≡ (if e.1.interrupted then e.1.array else false))
    × (e.0 ≡ (if e.1.interrupted then 1 else e.0))

unless_signal-Leaves :
    (c : Calls) (p : Point) (h : Held) (b1 b2 : Bool) (e : Ended)
    → Leaves b1 b2 e
    → Leaves b1 b2 (unless_signal c p h e)
unfolding unless_signal sigint_handler
unless_signal-Leaves c p h b1 b2 e l = elim (Bool-cases (c.signal p)) [
  | inl s ↦ rw s (refl, refl, refl, refl)
  | inr s ↦ rw s l
]

after_wait-Leaves :
    (h : Held) (b : Bool) → h.interrupted ≡ false → Leaves false false (after_wait h (some b))
unfolding after_wait sigkill_handler
after_wait-Leaves h true q = ground arith
after_wait-Leaves h false q = ground arith

waited-Leaves :
    (c : Calls) (h : Held)
    → h.interrupted ≡ false
    → Leaves false false (after_wait h (wait_children wait_fuel c.child_counter 0))
waited-Leaves c h q =
    rw (wait_children_decides 0 c.child_counter)
      (after_wait-Leaves h (ended_in_time c.child_counter) q)

cleaned-Leaves : (h : Held) → h.interrupted ≡ false → Leaves false false (1, cleaned h)
cleaned-Leaves h q = ground arith

send_fifo1-Leaves :
    (c : Calls) (a : List ℕ) (h : Held)
    → h.interrupted ≡ false
    → Leaves false false (send_fifo1 c a h)
unfolding send_fifo1
send_fifo1-Leaves c a h q =
    let sent : Held = record h { sent1 = (write_all c.write1 0 a).1 } in
    elim (Bool-cases c.open1) [
      | inr o ↦ rw o (cleaned-Leaves h q)
      | inl o ↦ elim (Bool-cases (write_all c.write1 0 a).0) [
        | inr w ↦ rw (o, w) (cleaned-Leaves sent q)
        | inl w ↦
            rw (o, w)
              (unless_signal-Leaves c waiting sent false false
                (after_wait sent (wait_children wait_fuel c.child_counter 0))
                (waited-Leaves c sent q))
      ]
    ]

-- What is held once FIFO2 has all.
abbrev pub sent_fifo2 : Calls → List ℕ → Held → Held
sent_fifo2 c a h = record h { sent2 = (write_all c.write2 0 a).1; commanded = true }

send_fifo2-Leaves :
    (c : Calls) (a : List ℕ) (h : Held)
    → h.interrupted ≡ false
    → Leaves false false (send_fifo2 c a h)
unfolding send_fifo2
send_fifo2-Leaves c a h q = ground (
  arith,
  send_fifo1-Leaves c a (sent_fifo2 c a h) q,
  unless_signal-Leaves c before_open1 (sent_fifo2 c a h) false false
      (send_fifo1 c a (sent_fifo2 c a h)),
  cleaned-Leaves h q,
)

-- The program can make its FIFOs, and what it needs behind them.
abbrev pub fifo1_made : Calls → Bool
fifo1_made c = not c.fifo1_there && c.fifo1_made

abbrev pub fifo2_made : Calls → Bool
fifo2_made c = not c.fifo2_there && c.fifo2_made

abbrev pub started : Calls → Bool
started c = c.malloc && c.fork2 && c.fork1

-- Which FIFO is there at the end where no signal comes.
abbrev pub fifo1_stays : Calls → ℤ → Bool
fifo1_stays c size =
    if ltb_ℤ size (pos 1) || not (fifo1_made c)
    then c.fifo1_there
    else fifo2_made c && not (started c)

abbrev pub fifo2_stays : Calls → ℤ → Bool
fifo2_stays c size =
    if ltb_ℤ size (pos 1) || not (fifo1_made c) || not (fifo2_made c)
    then c.fifo2_there
    else not (started c)

-- What is held with both FIFOs, and with the array.
abbrev with_fifos : Held
with_fifos = record {
  fifo1 = true;
  fifo2 = true;
  array = false;
  sent1 = [];
  sent2 = [];
  commanded = false;
  killed1 = false;
  killed2 = false;
  interrupted = false;
}

abbrev made : Held
made = record with_fifos { array = true }

abbrev with_fifo1 : Calls → Held
with_fifo1 c = record (at_first c) { fifo1 = true }

fork_child1-Leaves :
    (c : Calls) (a : List ℕ) → Leaves (not c.fork1) (not c.fork1) (fork_child1 c a made)
unfolding fork_child1
fork_child1-Leaves c a = elim (Bool-cases c.fork1) [
  | inr o ↦ rw o (refl, refl, refl, refl)
  | inl o ↦ rw o (
      unless_signal-Leaves c before_open2 made false false (send_fifo2 c a made)
        (send_fifo2-Leaves c a made refl))
]

fork_children-Leaves :
    (c : Calls) (a : List ℕ)
    → Leaves (not (c.fork2 && c.fork1)) (not (c.fork2 && c.fork1)) (fork_children c a made)
unfolding fork_children
fork_children-Leaves c a = elim (Bool-cases c.fork2) [
  | inr o ↦ rw o (refl, refl, refl, refl)
  | inl o ↦ rw o (
      unless_signal-Leaves c before_fork1 made (not c.fork1) (not c.fork1) (fork_child1 c a made)
        (fork_child1-Leaves c a))
]

make_array-Leaves :
    (c : Calls) (rands : List ℕ)
    → Leaves (not (started c)) (not (started c)) (make_array c rands with_fifos)
unfolding make_array
make_array-Leaves c rands = elim (Bool-cases c.malloc) [
  | inr o ↦ rw o (refl, refl, refl, refl)
  | inl o ↦ rw o (
      unless_signal-Leaves c before_fork2 made (not (c.fork2 && c.fork1)) (not (c.fork2 && c.fork1))
        (fork_children c (fill rands) made) (fork_children-Leaves c (fill rands)))
]

make_fifo2-Leaves :
    (c : Calls) (rands : List ℕ)
    → Leaves
        (fifo2_made c && not (started c))
        (if not (fifo2_made c) then c.fifo2_there else not (started c))
        (make_fifo2 c rands (with_fifo1 c))
unfolding make_fifo2
make_fifo2-Leaves c rands = elim (Bool-cases (fifo2_made c)) [
  | inr o ↦ rw o (refl, refl, refl, refl)
  | inl o ↦ rw o (
      unless_signal-Leaves c before_array with_fifos (not (started c)) (not (started c))
        (make_array c rands with_fifos) (make_array-Leaves c rands))
]

make_fifo1-Leaves :
    (c : Calls) (rands : List ℕ)
    → Leaves
        (if not (fifo1_made c) then c.fifo1_there else fifo2_made c && not (started c))
        (if not (fifo1_made c) || not (fifo2_made c) then c.fifo2_there else not (started c))
        (make_fifo1 c rands (at_first c))
unfolding make_fifo1
make_fifo1-Leaves c rands = elim (Bool-cases (fifo1_made c)) [
  | inr o ↦ rw o (refl, refl, refl, refl)
  | inl o ↦ rw o (
      unless_signal-Leaves c before_fifo2 (with_fifo1 c) (fifo2_made c && not (started c))
        (if not (fifo2_made c) then c.fifo2_there else not (started c))
        (make_fifo2 c rands (with_fifo1 c)) (make_fifo2-Leaves c rands))
]

sized-Leaves :
    (c : Calls) (size : ℤ) (rands : List ℕ)
    → Leaves (fifo1_stays c size) (fifo2_stays c size) (
        if ltb_ℤ size (pos 1)
        then (1, at_first c)
        else unless_signal c before_fifo1 (at_first c) (make_fifo1 c rands (at_first c)))
sized-Leaves c size rands = elim (Bool-cases (ltb_ℤ size (pos 1))) [
  | inl o ↦ rw o (refl, refl, refl, refl)
  | inr o ↦ rw o (
      unless_signal-Leaves c before_fifo1 (at_first c)
        (if not (fifo1_made c) then c.fifo1_there else fifo2_made c && not (started c))
        (if not (fifo1_made c) || not (fifo2_made c) then c.fifo2_there else not (started c))
        (make_fifo1 c rands (at_first c)) (make_fifo1-Leaves c rands))
]

-- From the prompt on, where no signal but SIGINT and SIGTSTP ends it: where one of these ends the
-- program, both FIFOs are gone, also those that it has not made, and its exit status is 1. Else it has
-- freed its array. Where the size is not positive or it cannot make FIFO1, since that is there
-- already or mkfifo fails, both FIFOs are as before; where it cannot make FIFO2, FIFO1 is gone and
-- FIFO2 as before; where it can make both and then not get the memory or one of its children, both
-- stay behind; and in all other cases both are gone.
pub main-Leaves :
    (c : Calls) (size : ℤ) (rands : List ℕ)
    → Leaves (fifo1_stays c size) (fifo2_stays c size) (main c size rands)
unfolding main
main-Leaves c size rands =
    unless_signal-Leaves c at_input (at_first c) (fifo1_stays c size) (fifo2_stays c size)
      (if ltb_ℤ size (pos 1)
        then (1, at_first c)
        else unless_signal c before_fifo1 (at_first c) (make_fifo1 c rands (at_first c)))
      (sized-Leaves c size rands)
