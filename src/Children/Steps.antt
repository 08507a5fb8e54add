-- ===== src/Children/Steps.antt =====
-- Every step keeps the invariant.
use gtu_cse344_system_progra.Base.{
  ℕ, suc, ◌<◌, ◌≡◌, refl, ap, sym, ◌∙◌, false, List, [], ◌∷◌, ◌++◌, length, arith, subst,
}
use gtu_cse344_system_progra.Children.{
  sum_from, Parent, closes_fifo2, opens_fifo1, waits_for_children, writes_fifo2, writes_fifo1,
  Adder, closes_output, added, killed, adds, opens_output, writes_sum, opens_input, Multiplier,
  reads_sum, World, is_written, Step, meet_fifo2, write_number, write_command, close_fifo2,
  meet_fifo1, write_addend, close_fifo1, add_number, close_input, open_output, meet_again,
  write_sum, broken_pipe, close_output, read_number, read_command, close_array, open_again,
  read_sum, read_nothing, at_first, Run, stop, then,
}
use gtu_cse344_system_progra.Children.Inv.{
  past, late, wrote, the_sum, AdderInv, MultiplierInv, Inv, late-past,
}
use gtu_cse344_system_progra.Children.Keeps.{
  AdderInv-early, AdderInv-close, AdderInv-write, AdderInv-add, AdderInv-all, MultiplierInv-past,
  MultiplierInv-close,
}
use gtu_cse344_system_progra.Children.Moves.{
  wrote-early, out-nothing, MultiplierInv-write, MultiplierInv-command, MultiplierInv-sum,
  MultiplierInv-read, MultiplierInv-accept, MultiplierInv-after, MultiplierInv-print,
}

sum_nothing : 0 ≡ sum_from 0 []
unfolding sum_from
sum_nothing = refl

module _ (a : List ℕ)
    (all_ints : (xs : List ℕ) (x : ℕ) (ys : List ℕ) → xs ++ (x ∷ ys) ≡ a → x < 4294967296)
    (small : the_sum a < 4294967296) where
  parent_at :
      {w : World} {p : Parent}
      → w.parent ≡ p
      → Inv a w
      → AdderInv a w.adder p w.fifo1 × MultiplierInv a w.multiplier p w.adder w.fifo2
  parent_at {w} e v = (
    subst (λ p. AdderInv a w.adder p w.fifo1) e v.adder_inv,
    subst (λ p. MultiplierInv a w.multiplier p w.adder w.fifo2) e v.multiplier_inv,
  )

  adder_at :
      {w : World} {ad : Adder}
      → w.adder ≡ ad
      → Inv a w
      → AdderInv a ad w.parent w.fifo1 × MultiplierInv a w.multiplier w.parent ad w.fifo2
  adder_at {w} e v = (
    subst (λ ad. AdderInv a ad w.parent w.fifo1) e v.adder_inv,
    subst (λ ad. MultiplierInv a w.multiplier w.parent ad w.fifo2) e v.multiplier_inv,
  )

  pub multiplier_at :
      {w : World} {m : Multiplier}
      → w.multiplier ≡ m
      → Inv a w
      → MultiplierInv a m w.parent w.adder w.fifo2
  multiplier_at {w} e v = subst (λ m. MultiplierInv a m w.parent w.adder w.fifo2) e v.multiplier_inv

  early_nothing : (w : World) → Inv a w → late w.parent ≡ false → wrote w.adder ≡ false
  early_nothing w v e = wrote-early a w.adder w.parent w.fifo1 e v.adder_inv

  Step-Inv : {w u : World} → Inv a w → Step a w u → Inv a u
  Step-Inv {w} v (meet_fifo2 p m) =
      let j = multiplier_at m v in
      record {
        adder_inv =
            AdderInv-early a w.adder w.parent (writes_fifo2 a) w.fifo1 (ap late p) refl v.adder_inv;
        multiplier_inv = (
          λ q. cc,
          [],
          refl,
          omega arith,
          j.1 ∙ sym (out-nothing a w.adder (early_nothing w v (ap late p))),
        );
      }
  Step-Inv {w} v (write_number {x} {xs} p) =
      let (i, j) = parent_at p v in
      let nothing = early_nothing w v (ap late p) in
      record {
        adder_inv =
            AdderInv-early a w.adder (writes_fifo2 (x ∷ xs)) (writes_fifo2 xs) w.fifo1 refl refl i;
        multiplier_inv = MultiplierInv-write a w.multiplier x xs w.adder w.fifo2 nothing j;
      }
  Step-Inv {w} v (write_command p) =
      let (i, j) = parent_at p v in
      let nothing = early_nothing w v (ap late p) in
      record {
        adder_inv = AdderInv-early a w.adder (writes_fifo2 []) closes_fifo2 w.fifo1 refl refl i;
        multiplier_inv = MultiplierInv-command a w.multiplier w.adder w.fifo2 nothing j;
      }
  Step-Inv {w} v (close_fifo2 p) =
      let (i, j) = parent_at p v in
      record {
        adder_inv = AdderInv-early a w.adder closes_fifo2 opens_fifo1 w.fifo1 refl refl i;
        multiplier_inv =
            MultiplierInv-close a w.multiplier closes_fifo2 opens_fifo1 w.adder w.adder w.fifo2 refl
              refl refl j;
      }
  Step-Inv {w} v (meet_fifo1 p ad) =
      let (i, j) = adder_at ad v in
      record {
        adder_inv = (refl, [], [], refl, omega arith, i.1, sum_nothing);
        multiplier_inv =
            MultiplierInv-past a w.multiplier w.parent (writes_fifo1 a) opens_input
              (adds (length a) 0) w.fifo2 (ap past p) refl refl j;
      }
  Step-Inv {w} v (write_addend {x} {xs} p) =
      let (i, j) = parent_at p v in
      record {
        adder_inv = AdderInv-write a w.adder x xs w.fifo1 i;
        multiplier_inv =
            MultiplierInv-past a w.multiplier (writes_fifo1 (x ∷ xs)) (writes_fifo1 xs) w.adder
              w.adder w.fifo2 refl refl refl j;
      }
  Step-Inv {w} v (close_fifo1 p) =
      let (i, j) = parent_at p v in
      record {
        adder_inv = AdderInv-close a w.adder w.fifo1 i;
        multiplier_inv =
            MultiplierInv-past a w.multiplier (writes_fifo1 []) waits_for_children w.adder w.adder
              w.fifo2 refl refl refl j;
      }
  Step-Inv {w} v (add_number {k} {s} ad some_bytes) =
      let (i, j) = adder_at ad v in
      record {
        adder_inv = AdderInv-add a all_ints k s w.parent w.fifo1 some_bytes i;
        multiplier_inv =
            MultiplierInv-past a w.multiplier w.parent w.parent (adds (suc k) s) (adds k _) w.fifo2
              (late-past w.parent i.0) (late-past w.parent i.0) refl j;
      }
  Step-Inv {w} v (close_input {s} ad) =
      let (i, j) = adder_at ad v in
      record {
        adder_inv = AdderInv-all a s w.parent w.fifo1 i;
        multiplier_inv =
            MultiplierInv-past a w.multiplier w.parent w.parent (adds 0 s) (opens_output s) w.fifo2
              (late-past w.parent i.0) (late-past w.parent i.0) refl j;
      }
  Step-Inv {w} v (open_output {s} ad r) =
      let (i, j) = adder_at ad v in
      record {
        adder_inv = i;
        multiplier_inv =
            MultiplierInv-past a w.multiplier w.parent w.parent (opens_output s) (writes_sum s)
              w.fifo2 (late-past w.parent i.0) (late-past w.parent i.0) refl j;
      }
  Step-Inv {w} v (meet_again {s} {r} ad m) =
      let (i, j) = adder_at ad v in
      record {
        adder_inv = i;
        multiplier_inv =
            MultiplierInv-past a (reads_sum r) w.parent w.parent (opens_output s) (writes_sum s)
              w.fifo2 (late-past w.parent i.0) (late-past w.parent i.0) refl
              (subst (λ m. MultiplierInv a m w.parent (opens_output s) w.fifo2) m j);
      }
  Step-Inv {w} v (write_sum {s} ad r) =
      let (i, j) = adder_at ad v in
      record {
        adder_inv = i.0;
        multiplier_inv =
            MultiplierInv-sum a w.multiplier w.parent s w.fifo2 (late-past w.parent i.0) i.1 r j;
      }
  Step-Inv {w} v (broken_pipe {s} ad r) =
      let (i, j) = adder_at ad v in
      record {
        adder_inv = i.0;
        multiplier_inv =
            MultiplierInv-past a w.multiplier w.parent w.parent (writes_sum s) killed w.fifo2
              (late-past w.parent i.0) (late-past w.parent i.0) refl j;
      }
  Step-Inv {w} v (close_output ad) =
      let (i, j) = adder_at ad v in
      record {
        adder_inv = i;
        multiplier_inv =
            MultiplierInv-close a w.multiplier w.parent w.parent closes_output added w.fifo2
              (late-past w.parent i) (late-past w.parent i) refl j;
      }
  Step-Inv {w} v (read_number {k} {xs} m some_bytes) = record {
    adder_inv = v.adder_inv;
    multiplier_inv =
        MultiplierInv-read a all_ints k xs w.parent w.adder w.fifo2 (early_nothing w v) some_bytes
          (multiplier_at m v);
  }
  Step-Inv {w} v (read_command {xs} m some_bytes) = record {
    adder_inv = v.adder_inv;
    multiplier_inv =
        MultiplierInv-accept a xs w.parent w.adder w.fifo2 (early_nothing w v) some_bytes
          (multiplier_at m v);
  }
  Step-Inv {w} v (close_array {c} {xs} m) = record {
    adder_inv = v.adder_inv;
    multiplier_inv =
        MultiplierInv-after a c xs w.parent w.adder w.fifo2 (is_written w) (multiplier_at m v);
  }
  Step-Inv {w} v (open_again {r} m written) = record {
    adder_inv = v.adder_inv;
    multiplier_inv = multiplier_at m v;
  }
  Step-Inv {w} v (read_sum {r} m some_bytes) = record {
    adder_inv = v.adder_inv;
    multiplier_inv =
        MultiplierInv-print a r w.parent w.adder w.fifo2 small some_bytes (multiplier_at m v);
  }
  Step-Inv {w} v (read_nothing {r} m bare unwritten) =
      let j = multiplier_at m v in
      record { adder_inv = v.adder_inv; multiplier_inv = (j.0, j.1, tt) }

  at_first-Inv : Inv a at_first
  at_first-Inv = record { adder_inv = (refl, refl); multiplier_inv = (refl, refl) }

  pub Run-Inv : {w : World} → Run a at_first w → Inv a w
  Run-Inv stop = at_first-Inv
  Run-Inv (then r st) = Step-Inv (Run-Inv r) st
