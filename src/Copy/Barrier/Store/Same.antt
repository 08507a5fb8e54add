-- ===== src/Copy/Barrier/Store/Same.antt =====
-- The buffer of HW5/src/buffer.c does what the one of HW4/src/buffer.c does.
use gtu_cse344_system_progra.Base.{ℕ, ◌≡◌, refl, Option, none, some, List, [], ◌∷◌, arith}
use mathlib.Core.Option
use gtu_cse344_system_progra.Copy.Buffer.Defs
use gtu_cse344_system_progra.Copy.Buffer.Defs.{BufferElement, Attempt, waits, returns}
use gtu_cse344_system_progra.Copy.Buffer.History
use gtu_cse344_system_progra.Copy.Buffer.History.{
  Call, push, pop, set_done, Event, settle, push_event, pop_event, mark_event,
}
use gtu_cse344_system_progra.Copy.Barrier.Store.{
  Buffer, init_buffer, buffer_push, buffer_pop, buffer_set_done,
}

-- The buffer without its barrier.
abbrev pub forget : Buffer → Defs.Buffer
forget b = record {
  items = b.items;
  capacity = b.capacity;
  in_index = b.in_index;
  out_index = b.out_index;
  count = b.count;
  done = b.done;
}

unfoldable pub step : Buffer → Call → Event × Buffer
step b (push x) = settle (push_event x) b (buffer_push b x)
step b pop = settle pop_event b (buffer_pop b)
step b set_done = settle mark_event b (buffer_set_done b)

unfoldable pub run : Buffer → List Call → List Event × Buffer
unfolding step
run b [] = ([], b)
run b (c ∷ cs) = let (e, b') = step b c in let (es, b'') = run b' cs in (e ∷ es, b'')

-- An attempt of each kind sees and leaves the same, and keeps the barrier.
abbrev Alike : Event × Buffer → Event × Defs.Buffer → ℕ → Type 0
Alike r r' barrier = (r.0 ≡ r'.0) × (forget r.1 ≡ r'.1) × (r.1.barrier ≡ barrier)

step-Alike : (b : Buffer) (c : Call) → Alike (step b c) (History.step (forget b) c) b.barrier
unfolding step buffer_push buffer_pop buffer_set_done History.step Defs.buffer_push Defs.buffer_pop
    Defs.buffer_set_done
step-Alike b (push x) = ground arith
step-Alike b pop = ground arith
step-Alike b set_done = (refl, refl, refl)

-- Whatever the attempts of the threads and their order, from any two buffers that differ in the
-- barrier alone the threads see the same events on both, and the buffers end alike; the barrier is
-- never changed.
pub run_alike :
    (b : Buffer) (cs : List Call)
    → ((run b cs).0 ≡ (History.run (forget b) cs).0)
      × (forget (run b cs).1 ≡ (History.run (forget b) cs).1)
      × ((run b cs).1.barrier ≡ b.barrier)
unfolding run History.run
run_alike b [] = (refl, refl, refl)
run_alike b (c ∷ cs) =
    let s = step-Alike b c in let ih = run_alike (step b c).1 cs in ground (arith, s, ih)

-- `init_buffer` succeeds where HW4's does.
pub init_buffer_alike :
    (storage : Option (List BufferElement)) (size barrier : ℕ)
    → Option.map forget (init_buffer storage size barrier) ≡ Defs.init_buffer storage size
unfolding init_buffer Defs.init_buffer
init_buffer_alike none size barrier = refl
init_buffer_alike (some storage) size barrier = refl
