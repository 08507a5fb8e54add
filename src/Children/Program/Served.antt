-- ===== src/Children/Program/Served.antt =====
-- What the parent of HW2/src/main.c has sent when it ends.
use gtu_cse344_system_progra.Children.Program.Ending.{
  ended_in_time, wait_children_decides, sent_fifo2, fifo1_made, fifo2_made, started,
}
use gtu_cse344_system_progra.Children.Program.{
  send_fifo1, send_fifo2, after_wait, sigkill_handler, sigint_handler, unless_signal, write_all,
  wait_children, wait_fuel, main, make_fifo1, make_fifo2, make_array, fork_children, fork_child1,
  at_first, Point, at_input, before_fifo1, before_fifo2, before_array, before_fork2, before_fork1,
  before_open2, before_open1, waiting, Calls, Held, Ended,
}
use gtu_cse344_system_progra.Base.{
  if◌then◌else◌, subst, ap, sym, ◌∙◌, inl, inr, Bool-cases, length, ℕ, ◌+◌, ◌≡◌, refl, Bool, true,
  false, not, ◌&&◌, List, [], ◌∷◌, arith,
}
use gtu_cse344_system_progra.Base.Int.{ℤ, pos, ltb_ℤ}
use gtu_cse344_system_progra.Children.{fill}

-- Nothing but a success of every write says that all was written.
write_all-length :
    (ok : ℕ → Bool) (i : ℕ) (xs : List ℕ)
    → (write_all ok i xs).0 ≡ true
    → (write_all ok i xs).1 ≡ xs
unfolding write_all
write_all-length ok i [] e = refl
write_all-length ok i (x ∷ xs) e = grind (arith, write_all-length ok (i + 1) xs)

-- What the parent has sent, and what it knows, when it ends with status 0.
abbrev pub Served : Calls → List ℕ → Ended → Type 0
Served c a e =
    (e.1.sent1 ≡ a)
    × (e.1.sent2 ≡ a)
    × (e.1.commanded ≡ true)
    × (ended_in_time c.child_counter ≡ true)

-- A signal that ends the program does not do so with status 0.
unless_signal-zero :
    (c : Calls) (p : Point) (h : Held) (e : Ended)
    → (unless_signal c p h e).0 ≡ 0
    → unless_signal c p h e ≡ e
unfolding unless_signal sigint_handler
unless_signal-zero c p h e z = elim (Bool-cases (c.signal p)) [
  | inl s ↦ absurd (ground arith)
  | inr s ↦ rw s refl
]

unless_signal-Served :
    (c : Calls) (a : List ℕ) (p : Point) (h : Held) (e : Ended)
    → (e.0 ≡ 0 → Served c a e)
    → (unless_signal c p h e).0 ≡ 0
    → Served c a (unless_signal c p h e)
unless_signal-Served c a p h e k z =
    let same = unless_signal-zero c p h e z in
    subst (Served c a) (sym same) (k (ap (λ (x : Ended). x.0) (sym same) ∙ z))

after_wait-Served :
    (c : Calls) (a : List ℕ) (h : Held)
    → h.sent1 ≡ a
    → h.sent2 ≡ a
    → h.commanded ≡ true
    → (after_wait h (wait_children wait_fuel c.child_counter 0)).0 ≡ 0
    → Served c a (after_wait h (wait_children wait_fuel c.child_counter 0))
unfolding after_wait sigkill_handler
after_wait-Served c a h e1 e2 told z = ground (arith, wait_children_decides 0 c.child_counter)

send_fifo1-Served :
    (c : Calls) (a : List ℕ) (h : Held)
    → h.sent2 ≡ a
    → h.commanded ≡ true
    → (send_fifo1 c a h).0 ≡ 0
    → Served c a (send_fifo1 c a h)
unfolding send_fifo1
send_fifo1-Served c a h e2 told z = elim (Bool-cases c.open1) [
  | inr o ↦ absurd (ground arith)
  | inl o ↦ elim (Bool-cases (write_all c.write1 0 a).0) [
    | inr w ↦ absurd (ground arith)
    | inl w ↦
        let sent : Held = record h { sent1 = (write_all c.write1 0 a).1 } in
        rw (o, w)
          (unless_signal-Served c a waiting sent
            (after_wait sent (wait_children wait_fuel c.child_counter 0))
            (after_wait-Served c a sent (write_all-length c.write1 0 a w) e2 told) (ground arith))
  ]
]

send_fifo2-Served :
    (c : Calls) (a : List ℕ) (h : Held) → (send_fifo2 c a h).0 ≡ 0 → Served c a (send_fifo2 c a h)
unfolding send_fifo2
send_fifo2-Served c a h z =
    elim (Bool-cases (c.open2 && (write_all c.write2 0 a).0 && c.write2 (length a))) [
      | inr o ↦ absurd (ground arith)
      | inl o ↦ ground (
        arith,
        write_all-length c.write2 0 a,
        unless_signal-Served c a before_open1 (sent_fifo2 c a h) (send_fifo1 c a (sent_fifo2 c a h))
            (λ y.
              send_fifo1-Served c a (sent_fifo2 c a h)
                (write_all-length c.write2 0 a (ground arith)) refl y),
      )
    ]

fork_child1-Served :
    (c : Calls) (a : List ℕ) (h : Held) → (fork_child1 c a h).0 ≡ 0 → Served c a (fork_child1 c a h)
unfolding fork_child1
fork_child1-Served c a h z = elim (Bool-cases c.fork1) [
  | inr o ↦ absurd (ground arith)
  | inl o ↦ rw o (
      unless_signal-Served c a before_open2 h (send_fifo2 c a h) (send_fifo2-Served c a h)
        (ground arith))
]

fork_children-Served :
    (c : Calls) (a : List ℕ) (h : Held)
    → (fork_children c a h).0 ≡ 0
    → Served c a (fork_children c a h)
unfolding fork_children
fork_children-Served c a h z = elim (Bool-cases c.fork2) [
  | inr o ↦ absurd (ground arith)
  | inl o ↦ rw o (
      unless_signal-Served c a before_fork1 h (fork_child1 c a h) (fork_child1-Served c a h)
        (ground arith))
]

make_array-Served :
    (c : Calls) (rands : List ℕ) (h : Held)
    → (make_array c rands h).0 ≡ 0
    → Served c (fill rands) (make_array c rands h)
unfolding make_array
make_array-Served c rands h z = elim (Bool-cases c.malloc) [
  | inr o ↦ absurd (ground arith)
  | inl o ↦
      let h' : Held = record h { array = true } in
      rw o (
        unless_signal-Served c (fill rands) before_fork2 h' (fork_children c (fill rands) h')
          (fork_children-Served c (fill rands) h') (ground arith))
]

make_fifo2-Served :
    (c : Calls) (rands : List ℕ) (h : Held)
    → (make_fifo2 c rands h).0 ≡ 0
    → Served c (fill rands) (make_fifo2 c rands h)
unfolding make_fifo2
make_fifo2-Served c rands h z = elim (Bool-cases (fifo2_made c)) [
  | inr o ↦ absurd (ground arith)
  | inl o ↦
      let h' : Held = record h { fifo2 = true } in
      rw o (
        unless_signal-Served c (fill rands) before_array h' (make_array c rands h')
          (make_array-Served c rands h') (ground arith))
]

make_fifo1-Served :
    (c : Calls) (rands : List ℕ) (h : Held)
    → (make_fifo1 c rands h).0 ≡ 0
    → Served c (fill rands) (make_fifo1 c rands h)
unfolding make_fifo1
make_fifo1-Served c rands h z = elim (Bool-cases (fifo1_made c)) [
  | inr o ↦ absurd (ground arith)
  | inl o ↦
      let h' : Held = record h { fifo1 = true } in
      rw o (
        unless_signal-Served c (fill rands) before_fifo2 h' (make_fifo2 c rands h')
          (make_fifo2-Served c rands h') (ground arith))
]

sized-Served :
    (c : Calls) (size : ℤ) (rands : List ℕ) (h : Held)
    → let e : Ended =
        if ltb_ℤ size (pos 1)
        then (1, h)
        else unless_signal c before_fifo1 h (make_fifo1 c rands h) in
      e.0 ≡ 0 → Served c (fill rands) e
sized-Served c size rands h z = elim (Bool-cases (ltb_ℤ size (pos 1))) [
  | inl o ↦ absurd (ground arith)
  | inr o ↦ rw o (
      unless_signal-Served c (fill rands) before_fifo1 h (make_fifo1 c rands h)
        (make_fifo1-Served c rands h) (ground arith))
]

-- With exit status 0 the parent has sent the whole array to each child and the command to the
-- second, and one of the four tests of its waiting loop found both children ended.
pub main-Served :
    (c : Calls) (size : ℤ) (rands : List ℕ)
    → (main c size rands).0 ≡ 0
    → Served c (fill rands) (main c size rands)
unfolding main
main-Served c size rands z =
    unless_signal-Served c (fill rands) at_input (at_first c)
      (if ltb_ℤ size (pos 1)
        then (1, at_first c)
        else unless_signal c before_fifo1 (at_first c) (make_fifo1 c rands (at_first c)))
      (sized-Served c size rands (at_first c)) z

write_all-true :
    (ok : ℕ → Bool) (i : ℕ) (xs : List ℕ) → ((j : ℕ) → ok j ≡ true) → write_all ok i xs ≡ (true, xs)
unfolding write_all
write_all-true ok i [] h = refl
write_all-true ok i (x ∷ xs) h = grind (arith, h i, write_all-true ok (i + 1) xs h)

-- Every call succeeds, to the last write.
abbrev pub AllSucceed : Calls → ℤ → Type 0
AllSucceed c size =
    (not (ltb_ℤ size (pos 1)) && fifo1_made c && fifo2_made c && started c && c.open2 && c.open1
      ≡ true)
    × ((p : Point) → c.signal p ≡ false)
    × ((i : ℕ) → c.write2 i ≡ true)
    × ((i : ℕ) → c.write1 i ≡ true)

-- What is held after a timeout.
abbrev pub timed_out : List ℕ → Held
timed_out a = record {
  fifo1 = false;
  fifo2 = false;
  array = false;
  sent1 = a;
  sent2 = a;
  commanded = true;
  killed1 = true;
  killed2 = false;
  interrupted = false;
}

-- Where every call succeeds, no signal comes and no test finds both children ended, the program sends
-- all, removes its FIFOs and kills the first child alone, also when it is the second that still runs.
pub main_timeout :
    (c : Calls) (size : ℤ) (rands : List ℕ)
    → AllSucceed c size
    → ended_in_time c.child_counter ≡ false
    → main c size rands ≡ (1, timed_out (fill rands))
unfolding main make_fifo1 make_fifo2 make_array fork_children fork_child1 send_fifo2 send_fifo1
    after_wait sigkill_handler unless_signal
main_timeout c size rands (h, q, h2, h1) late =
    let a = fill rands in
    ground (
      arith,
      q at_input,
      q before_fifo1,
      q before_fifo2,
      q before_array,
      q before_fork2,
      q before_fork1,
      q before_open2,
      q before_open1,
      q waiting,
      h2 (length a),
      write_all-true c.write2 0 a h2,
      write_all-true c.write1 0 a h1,
      wait_children_decides 0 c.child_counter,
    )
