-- ===== src/Copy/Whole.antt =====
-- The walk of the manager and the threads of the copier together.
use gtu_cse344_system_progra.Base.{ℕ, ◌<◌, ◌≡◌, ap, ◌∙◌, false, [], subst}
use gtu_cse344_system_progra.Copy.Buffer.Defs.{BufferElement, Buffer}
use gtu_cse344_system_progra.Copy.Buffer.Inv.{IsValid}
use gtu_cse344_system_progra.Copy.Crew.Complete.{total}
use gtu_cse344_system_progra.Copy.Barrier.{Hall, hall_at_start, HallRun}
use gtu_cse344_system_progra.Copy.Barrier.Safety.{SomeoneLeft, barrier_safe}
use gtu_cse344_system_progra.Copy.Walk.{Name, Entries, Disk, Walk, continues, copy_directory}
use gtu_cse344_system_progra.Copy.Walk.Mirror.{
  listing, mirrored, Pushes, no_walk, copy_directory_mirrors,
}

-- Where the walk over the source tree returns, and the manager pushes what it has made, then as soon as
-- one thread has passed the barrier each file of the tree has been copied exactly once to its place
-- under the destination, and nothing else has: for any weight of an element, the copied ones have the
-- sum of those of the tree. There is a worker, and the buffer was valid, open and empty at first. A
-- file is copied when a worker has gone through its loop over it, whatever read and write return.
pub tree_copied :
    (weight : BufferElement → ℕ) (disk : Disk) (src dest : Name) (entries : Entries) {walk : Walk}
    (n : ℕ) {b : Buffer} {h : Hall}
    → copy_directory disk src dest entries no_walk ≡ continues walk
    → 0 < n
    → IsValid b
    → b.done ≡ false
    → b.count ≡ 0
    → HallRun n (hall_at_start b walk.pushed) h
    → SomeoneLeft n h
    → total weight h.crew.copied ≡ total weight (mirrored disk src dest (listing entries))
tree_copied weight disk src dest entries {walk} n walked some_worker v undone bare r someone =
    (barrier_safe weight n walk.pushed some_worker v undone bare r someone).1
    ∙ ap (total weight) (
        subst (Pushes disk [] (mirrored disk src dest (listing entries))) walked
          (copy_directory_mirrors disk src dest entries))
