-- ===== src/Children/Program.antt =====
-- `main` of HW2/src/main.c as the parent goes through it: what it does with each failure, and the
-- wait for its children. What the children do with the array is in Children.antt.
pub mod Ending
pub mod Served
pub mod Reaping
mod Tests
use gtu_cse344_system_progra.Base.{◌&&◌}
use gtu_cse344_system_progra.Base.{
  ℕ, zero, suc, ◌+◌, Bool, true, false, not, ◌||◌, Option, none, some, List, [], ◌∷◌, ◌++◌, ltb,
  length, if◌then◌else◌,
}
use gtu_cse344_system_progra.Base.Int.{ℤ, pos, ltb_ℤ}
use gtu_cse344_system_progra.Children.{fill}

-- Where a SIGINT or a SIGTSTP can come. One that comes while a FIFO is written is taken at the next of
-- them, and so is one in the clean-up, which the handler would do again.
pub data Point : Type 0 where
  at_input before_fifo1 before_fifo2 before_array before_fork2 before_fork1 : Point
  before_open2 before_open1 waiting : Point

-- Which FIFOs were there before, whether the calls succeed, `write1` and `write2` by the number of the write to that FIFO; and what
-- `child_counter` is at each test of the waiting loop; and where a signal comes.
pub record Calls : Type 0 where
  pub fifo1_there : Bool
  pub fifo2_there : Bool
  pub fifo1_made : Bool
  pub fifo2_made : Bool
  pub malloc : Bool
  pub fork2 : Bool
  pub fork1 : Bool
  pub open2 : Bool
  pub write2 : ℕ → Bool
  pub open1 : Bool
  pub write1 : ℕ → Bool
  pub child_counter : ℕ → ℕ
  pub signal : Point → Bool

-- Which FIFOs are there, whether the array is allocated, what was written to each FIFO, whether the
-- command was, which children were killed, and whether the handler of a signal has ended the program.
pub record Held : Type 0 where
  pub fifo1 : Bool
  pub fifo2 : Bool
  pub array : Bool
  pub sent1 : List ℕ
  pub sent2 : List ℕ
  pub commanded : Bool
  pub killed1 : Bool
  pub killed2 : Bool
  pub interrupted : Bool

-- The exit status, and what is held then.
abbrev pub Ended : Type 0
Ended = ℕ × Held

abbrev pub at_first : Calls → Held
at_first c = record {
  fifo1 = c.fifo1_there;
  fifo2 = c.fifo2_there;
  array = false;
  sent1 = [];
  sent2 = [];
  commanded = false;
  killed1 = false;
  killed2 = false;
  interrupted = false;
}

-- `unlink(FIFO1); unlink(FIFO2); free(array)`
abbrev pub cleaned : Held → Held
cleaned h = record h { fifo1 = false; fifo2 = false; array = false }

-- `sigint_handler` and `sigtstp_handler`.
unfoldable pub sigint_handler : Held → Ended
sigint_handler h = (1, record h { fifo1 = false; fifo2 = false; interrupted = true })

-- What goes on at a point where no signal comes.
unfoldable pub unless_signal : Calls → Point → Held → Ended → Ended
unfolding sigint_handler
unless_signal c p h e = if c.signal p then sigint_handler h else e

-- `mkfifo` fails where the file is there.
abbrev pub create_fifo : Bool → Bool → Bool
create_fifo there ok = not there && ok

-- One write for each number, up to the first that fails; `i` of them were written before.
unfoldable pub write_all : (ℕ → Bool) → ℕ → List ℕ → Bool × List ℕ
write_all ok i [] = (true, [])
write_all ok i (x ∷ xs) =
    let rest = write_all ok (i + 1) xs in if ok i then (rest.0, x ∷ rest.1) else (false, [])

-- The loop that waits for the children, from the count `timeout`: whether both have ended. It runs
-- on fuel.
unfoldable pub wait_children : ℕ → (ℕ → ℕ) → ℕ → Option Bool
wait_children zero counter timeout = none
wait_children (suc fuel) counter timeout =
    let rest = wait_children fuel counter (timeout + 1) in
    if not (ltb (counter timeout) 2)
    then some true
    else if ltb 3 (timeout + 1)
    then some false
    else rest

-- SIGKILL for the first child, and the exit.
unfoldable pub sigkill_handler : Held → Ended
sigkill_handler h = (1, record h { killed1 = true })

-- `child_pid1` is positive in the parent.
unfoldable pub after_wait : Held → Option Bool → Ended
unfolding sigkill_handler
after_wait h (some true) = (0, cleaned h)
after_wait h (some false) = sigkill_handler (cleaned h)
after_wait h none = (0, h)

abbrev pub wait_fuel : ℕ
wait_fuel = 4

unfoldable pub send_fifo1 : Calls → List ℕ → Held → Ended
unfolding after_wait unless_signal
send_fifo1 c a h =
    if not c.open1
    then (1, cleaned h)
    else let w = write_all c.write1 0 a in
      let sent = record h { sent1 = w.1 } in
      if not w.0
      then (1, cleaned sent)
      else unless_signal c waiting sent
          (after_wait sent (wait_children wait_fuel c.child_counter 0))

unfoldable pub send_fifo2 : Calls → List ℕ → Held → Ended
unfolding send_fifo1 unless_signal
send_fifo2 c a h =
    if not c.open2
    then (1, cleaned h)
    else let w = write_all c.write2 0 a in
      let sent = record h { sent2 = w.1 } in
      if not w.0 || not (c.write2 (length a))
      then (1, cleaned sent)
      else unless_signal c before_open1 (record sent { commanded = true })
          (send_fifo1 c a (record sent { commanded = true }))

unfoldable pub fork_child1 : Calls → List ℕ → Held → Ended
unfolding send_fifo2 unless_signal
fork_child1 c a h =
    if not c.fork1
    then (1, record h { array = false })
    else unless_signal c before_open2 h (send_fifo2 c a h)

unfoldable pub fork_children : Calls → List ℕ → Held → Ended
unfolding fork_child1 unless_signal
fork_children c a h =
    if not c.fork2
    then (1, record h { array = false })
    else unless_signal c before_fork1 h (fork_child1 c a h)

-- `rands` is what `rand` returns for each number.
unfoldable pub make_array : Calls → List ℕ → Held → Ended
unfolding fork_children unless_signal
make_array c rands h =
    if not c.malloc
    then (1, h)
    else unless_signal c before_fork2 (record h { array = true })
        (fork_children c (fill rands) (record h { array = true }))

unfoldable pub make_fifo2 : Calls → List ℕ → Held → Ended
unfolding make_array unless_signal
make_fifo2 c rands h =
    if not (create_fifo c.fifo2_there c.fifo2_made)
    then (1, record h { fifo1 = false })
    else unless_signal c before_array (record h { fifo2 = true })
        (make_array c rands (record h { fifo2 = true }))

unfoldable pub make_fifo1 : Calls → List ℕ → Held → Ended
unfolding make_fifo2 unless_signal
make_fifo1 c rands h =
    if not (create_fifo c.fifo1_there c.fifo1_made)
    then (1, h)
    else unless_signal c before_fifo2 (record h { fifo1 = true })
        (make_fifo2 c rands (record h { fifo1 = true }))

-- From the prompt for the size of the array.
unfoldable pub main : Calls → ℤ → List ℕ → Ended
unfolding make_fifo1 unless_signal
main c size rands = unless_signal c at_input (at_first c) (
    if ltb_ℤ size (pos 1)
    then (1, at_first c)
    else unless_signal c before_fifo1 (at_first c) (make_fifo1 c rands (at_first c)))
