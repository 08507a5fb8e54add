-- ===== src/Copy/Crew/Tests.antt =====
-- One worker and one file.
use gtu_cse344_system_progra.Base.{
  ℕ, zero, suc, ◌<◌, ◌≡◌, refl, true, false, [], ◌∷◌, arith, ℕ_discrete,
}
use gtu_cse344_system_progra.Base.Family.{update}
use gtu_cse344_system_progra.Copy.Buffer.Defs.{
  BufferElement, Buffer, no_element, buffer_push, buffer_pop, buffer_set_done, buffer_is_done,
}
use gtu_cse344_system_progra.Copy.Buffer.Inv.{IsValid}
use gtu_cse344_system_progra.Copy.Crew.Defs.{
  finished, popping, gone, copying, Crew, wake_worker, wakes_all, wakes_nobody, wakes_manager,
  pushes, marks, pops, ends, copies, at_start, Run, stop, then,
}
use gtu_cse344_system_progra.Copy.Crew.Progress.{IsThrough}

abbrev pub a_file : BufferElement
a_file = record { src_fd = 3; dest_fd = 4; filename = b'f' ∷ [] }

abbrev pub bare_buffer : Buffer
bare_buffer = record {
  items = no_element ∷ [];
  capacity = 1;
  in_index = 0;
  out_index = 0;
  count = 0;
  done = false;
}

pub bare_buffer-IsValid : IsValid bare_buffer
bare_buffer-IsValid = record {
  positive = omega arith;
  storage = omega arith;
  out_in = omega arith;
  count_in = omega arith;
  next = refl;
}

abbrev pub a_start : Crew
a_start = at_start bare_buffer (a_file ∷ [])

abbrev full_crew : Crew
full_crew = record a_start {
  buffer = record bare_buffer { items = a_file ∷ []; count = 1 };
  todo = [];
}

full_crew-Run : Run 1 a_start 1 full_crew
unfolding buffer_push
full_crew-Run = then stop (pushes refl refl refl (wakes_nobody (λ i lt e. cc)))

abbrev copying_crew : Crew
copying_crew = record full_crew {
  buffer = record bare_buffer { items = a_file ∷ [] };
  worker = update full_crew.worker 0 (copying a_file);
}

copying_crew-Run : Run 1 a_start 2 copying_crew
unfolding buffer_pop
copying_crew-Run = then full_crew-Run (pops 0 (omega arith) refl refl wakes_manager)

abbrev marked_crew : Crew
marked_crew = record copying_crew {
  buffer = record copying_crew.buffer { done = true };
  manager = finished;
  worker = λ i. wake_worker (copying_crew.worker i);
}

marked_crew-Run : Run 1 a_start 3 marked_crew
unfolding buffer_set_done
marked_crew-Run = then copying_crew-Run (marks refl refl refl wakes_all)

abbrev copied_crew : Crew
copied_crew = record marked_crew {
  worker = update marked_crew.worker 0 popping;
  copied = a_file ∷ [];
}

copied_crew-Run : Run 1 a_start 4 copied_crew
unfolding ℕ_discrete
copied_crew-Run = then marked_crew-Run (copies 0 (omega arith) refl)

abbrev pub last_crew : Crew
last_crew = record copied_crew { worker = update copied_crew.worker 0 gone }

pub last_crew-Run : Run 1 a_start 5 last_crew
unfolding ℕ_discrete buffer_pop buffer_is_done
last_crew-Run = then copied_crew-Run (ends 0 (omega arith) refl refl refl)

last_crew-IsThrough : IsThrough 1 last_crew
unfolding ℕ_discrete
last_crew-IsThrough = (refl, all_gone)
  where
    all_gone : (i : ℕ) → i < 1 → last_crew.worker i ≡ gone
    all_gone zero lt = refl
    all_gone (suc i) lt = absurd (omega arith)
