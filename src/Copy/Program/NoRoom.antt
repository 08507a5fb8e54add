-- ===== src/Copy/Program/NoRoom.antt =====
-- The copiers with a buffer size of 0, which `main` does not refuse.
use gtu_cse344_system_progra.Base.{
  inr, inl, Option-cases, ℕ, ◌≡◌, List, [], ◌∷◌, false, ◌⊎◌, arith, ◌≢◌, ◌∙◌, Option, refl,
}
use gtu_cse344_system_progra.Copy.Crew.Defs.{
  then, at_start, Run, stop, finished, pushing, push_sleeps, WorkerPc, popping, pop_sleeps, Crew,
  Step, push_waits, pushes, marks, pop_waits, pops, ends, retries, copies,
}
use gtu_cse344_system_progra.Base.Int.{ℤ, pos_part}
use gtu_cse344_system_progra.Copy.Buffer.Defs.{
  init_buffer, BufferElement, Buffer, buffer_push, buffer_pop,
}
use gtu_cse344_system_progra.Copy.Walk.{Name}
use gtu_cse344_system_progra.Copy.Program.{Threads, starts, argument, with_buffer, main}
use gtu_cse344_system_progra.Base.Family.{update}

-- Nothing has been pushed, and every thread makes its attempt or sleeps.
record Idle (b : Buffer) (files : List BufferElement) (s : Crew) : Type 0 where
  same : s.buffer ≡ b
  todo : s.todo ≡ files
  manager : (s.manager ≡ pushing) ⊎ (s.manager ≡ push_sleeps)
  worker : (i : ℕ) → (s.worker i ≡ popping) ⊎ (s.worker i ≡ pop_sleeps)
  copied : s.copied ≡ []

update-Idle :
    (w : ℕ → WorkerPc) (i j : ℕ)
    → ((k : ℕ) → (w k ≡ popping) ⊎ (w k ≡ pop_sleeps))
    → (update w i pop_sleeps j ≡ popping) ⊎ (update w i pop_sleeps j ≡ pop_sleeps)
update-Idle w i j h = ground (arith, h j)

Step-Idle :
    {n : ℕ} {b : Buffer} {x : BufferElement} {xs : List BufferElement} {s t : Crew}
    → b.capacity ≡ 0
    → b.count ≡ 0
    → b.done ≡ false
    → Step n s t
    → Idle b (x ∷ xs) s
    → Idle b (x ∷ xs) t
unfolding buffer_push buffer_pop
Step-Idle c k d (push_waits m e h) v = ground arith
Step-Idle c k d (pushes m e h w) v = ground arith
Step-Idle c k d (marks m e h w) v = ground arith
Step-Idle {s = s} c k d (pop_waits i lt e h) v = record {
  same = v.same;
  todo = v.todo;
  manager = v.manager;
  worker = λ j. update-Idle s.worker i j v.worker;
  copied = v.copied;
}
Step-Idle c k d (pops i lt e h w) v = ground (arith, v.worker i)
Step-Idle c k d (ends i lt e h z) v = ground (arith, v.worker i)
Step-Idle c k d (retries i lt e h z) v = ground (arith, v.worker i)
Step-Idle c k d (copies i lt e) v = ground (arith, v.worker i)

Run-Idle :
    {n : ℕ} {b : Buffer} {x : BufferElement} {xs : List BufferElement} {k : ℕ} {s : Crew}
    → b.capacity ≡ 0
    → b.count ≡ 0
    → b.done ≡ false
    → Run n (at_start b (x ∷ xs)) k s
    → Idle b (x ∷ xs) s
Run-Idle c e d stop = record {
  same = refl;
  todo = refl;
  manager = inl refl;
  worker = λ i. inl refl;
  copied = refl;
}
Run-Idle c e d (then r m) = Step-Idle c e d m (Run-Idle c e d r)

-- The buffer that `main` starts the threads with.
pub main_buffer :
    (atoi : Name → ℤ) (malloc : ℤ → Option (List BufferElement)) (argv : List Name)
    {t : Threads Buffer}
    → main atoi malloc argv ≡ starts t
    → (t.buffer.capacity ≡ pos_part (atoi (argument argv 1)))
      × (t.buffer.count ≡ 0)
      × (t.buffer.done ≡ false)
unfolding main with_buffer init_buffer
main_buffer atoi malloc argv e = elim (Option-cases (malloc (atoi (argument argv 1)))) [
  | inl z ↦ ground arith
  | inr (b, z) ↦ ground arith
]

-- Where the buffer size reads as 0 or less and the source tree is not empty, and `main` starts its
-- threads all the same, nothing is ever copied: in every state that they reach the manager has all
-- of its files still to push and is not through.
pub no_room :
    (atoi : Name → ℤ) (malloc : ℤ → Option (List BufferElement)) (argv : List Name)
    {t : Threads Buffer} {x : BufferElement} {xs : List BufferElement} {k : ℕ} {s : Crew}
    → main atoi malloc argv ≡ starts t
    → pos_part (atoi (argument argv 1)) ≡ 0
    → Run t.worker_amount (at_start t.buffer (x ∷ xs)) k s
    → (s.copied ≡ []) × (s.todo ≡ x ∷ xs) × (s.manager ≢ finished)
no_room atoi malloc argv e z r =
    let (c, k, d) = main_buffer atoi malloc argv e in
    let v = Run-Idle (c ∙ z) k d r in (v.copied, v.todo, λ f. ground (arith, v.manager))
