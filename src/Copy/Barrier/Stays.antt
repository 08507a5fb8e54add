-- ===== src/Copy/Barrier/Stays.antt =====
-- A thread that has ended its work stays at its end.
use gtu_cse344_system_progra.Base.{ℕ, ◌≡◌, ◌≢◌, refl, ap, arith}
use gtu_cse344_system_progra.Base.Family.{update}
use gtu_cse344_system_progra.Copy.Buffer.Defs.{Wake}
use gtu_cse344_system_progra.Copy.Crew.Defs.{
  finished, WorkerPc, popping, gone, Crew, wake_manager, wake_worker, Wakes, wakes_none,
  wakes_manager, wakes_one, wakes_nobody, wakes_all, Step, push_waits, pushes, marks, pop_waits,
  pops, ends, retries, copies,
}

update-gone :
    (f : ℕ → WorkerPc) (i j : ℕ) (p : WorkerPc) → f i ≢ gone → f j ≡ gone → update f i p j ≡ gone
update-gone f i j p ne e = ground (arith, ne, e)

Wakes-gone :
    {n : ℕ} {s : Crew} {w : Wake} {t : Crew} (j : ℕ)
    → Wakes n s w t
    → s.worker j ≡ gone
    → t.worker j ≡ gone
Wakes-gone j wakes_none e = e
Wakes-gone j wakes_manager e = e
Wakes-gone {s = s} j (wakes_one i lt h) e = update-gone s.worker i j popping (λ h'. cc) e
Wakes-gone j (wakes_nobody none) e = e
Wakes-gone j wakes_all e = ap wake_worker e

Wakes-finished :
    {n : ℕ} {s : Crew} {w : Wake} {t : Crew}
    → Wakes n s w t
    → s.manager ≡ finished
    → t.manager ≡ finished
Wakes-finished wakes_none e = e
Wakes-finished wakes_manager e = ap wake_manager e
Wakes-finished (wakes_one i lt h) e = e
Wakes-finished (wakes_nobody none) e = e
Wakes-finished wakes_all e = e

pub Step-gone : {n : ℕ} {s t : Crew} (j : ℕ) → Step n s t → s.worker j ≡ gone → t.worker j ≡ gone
Step-gone j (push_waits m f h) e = e
Step-gone j (pushes m f h w) e = Wakes-gone j w e
Step-gone j (marks m f h w) e = Wakes-gone j w e
Step-gone {s = s} j (pop_waits i lt p h) e = update-gone s.worker i j _ (λ q. cc) e
Step-gone {s = s} j (pops i lt p h w) e = Wakes-gone j w (update-gone s.worker i j _ (λ q. cc) e)
Step-gone {s = s} j (ends i lt p h d) e = update-gone s.worker i j _ (λ q. cc) e
Step-gone j (retries i lt p h d) e = e
Step-gone {s = s} j (copies i lt p) e = update-gone s.worker i j _ (λ q. cc) e

pub Step-finished : {n : ℕ} {s t : Crew} → Step n s t → s.manager ≡ finished → t.manager ≡ finished
Step-finished (push_waits m f h) e = absurd (cc (m, e))
Step-finished (pushes m f h w) e = absurd (cc (m, e))
Step-finished (marks m f h w) e = Wakes-finished w refl
Step-finished (pop_waits i lt p h) e = e
Step-finished (pops i lt p h w) e = Wakes-finished w e
Step-finished (ends i lt p h d) e = e
Step-finished (retries i lt p h d) e = e
Step-finished (copies i lt p) e = e
