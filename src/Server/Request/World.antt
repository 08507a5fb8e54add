-- ===== src/Server/Request/World.antt =====
-- What the handlers of `request` in Midterm/src/server.c read and change, and how they answer.
-- A handler returns an `Outcome`: the loop of `request` goes on, or the process has ended. What the
-- system calls of one round of the loop return is an argument, `Os`.
use gtu_cse344_system_progra.Base.{ap}
use gtu_cse344_system_progra.Base.Strings.{same_name}
use Prim.Native.String.{String}
use gtu_cse344_system_progra.Base.{
  ℕ, ◌≡◌, refl, arith, Bool, false, not, Option, some, none, List, [], ◌∷◌, if◌then◌else◌,
}
use gtu_cse344_system_progra.Server.Sync.Table.{Name, Shared, SemInit, find_or_add}

abbrev pub Bytes : Type 0
Bytes = List ℕ

-- A directory by the files in it.
abbrev pub Dir : Type 0
Dir = List (Name × Bytes)

pub data Reply : Type 0 where
  text : String → Reply
  contents : Bytes → Reply  -- a piece of a file, or the list of names
  uploaded downloaded : ℕ → Reply  -- with "Total bytes transferred"

-- A call of a function of `sync.c` on the entry with the given index.
pub data LockCall : Type 0 where
  reader_enter reader_exit writer_enter writer_exit : ℕ → LockCall

-- `locks` and `replies` have the last entry first. The effect of the lock calls on the semaphores is
-- that of `Sync.Lock`.
pub record World : Type 0 where
  pub client_dir : Dir  -- the working directory, which server and client share
  pub server_dir : Dir
  pub sd : Shared
  pub locks : List LockCall
  pub replies : List Reply
  pub client_fifo : Bool  -- whether it is there
  pub server_fifo : Bool
  pub killed : Bool  -- SIGINT has gone to the server

-- Whether each call of the round succeeds. Of a loop's calls there is one for each of its rounds.
pub record Os : Type 0 where
  pub open_fifo : Bool
  pub write_fifo : Bool
  pub open_again : Bool  -- the FIFO, a second time in the same round
  pub write_again : Bool
  pub sem : SemInit
  pub open_file : Bool  -- a file that is there
  pub create_file : Bool
  pub tmpfile : Bool
  pub write_file : Bool
  pub write_newline : Bool
  pub opendir : Bool
  pub fork : Bool
  pub tar : Bool  -- the exit status of the child that runs `tar`
  pub read_chunk : ℕ → Bool
  pub write_chunk : ℕ → Bool

pub data Outcome : Type 0 where
  continues ended : World → Outcome

infixl 5 ◌>>=◌
abbrev pub ◌>>=◌ : Outcome → (World → Outcome) → Outcome
continues w >>= f = f w
ended w >>= f = ended w

-- The file of a directory with a given name.
unfoldable pub find : Name → Dir → Option Bytes
find n [] = none
find n ((m, b) ∷ d) = if same_name m n then some b else find n d

-- The directory after a file has been created or overwritten.
unfoldable pub put : Name → Bytes → Dir → Dir
put n b [] = (n, b) ∷ []
put n b ((m, c) ∷ d) = if same_name m n then (m, b) ∷ d else (m, c) ∷ put n b d

abbrev pub log : LockCall → World → World
log c w = record w { locks = c ∷ w.locks }

abbrev pub unlink_fifo : World → World
unlink_fifo w = record w { client_fifo = false }

abbrev pub send : Reply → World → World
send r w = record w { replies = r ∷ w.replies }

-- The block by which nearly every branch answers: open the client's FIFO, write, close; a failure
-- ends the process, after a failed write mostly with the FIFO removed.
unfoldable pub respond : Os → Reply → World → Outcome
respond os r w =
    if not os.open_fifo
    then ended w
    else if not os.write_fifo
    then ended (unlink_fifo w)
    else continues (send r w)

-- The same in the branches that leave the FIFO there.
unfoldable pub respond_keep : Os → Reply → World → Outcome
respond_keep os r w =
    if not os.open_fifo
    then ended w
    else if not os.write_fifo
    then ended w
    else continues (send r w)

with_lock_found : (ℕ → World → Outcome) → World → Option ℕ × Shared → Outcome
with_lock_found f w (none, sd') = ended (record w { sd = sd' })
with_lock_found f w (some k, sd') = f k (record w { sd = sd' })

-- Find the file's entry in the table, or add it; a full table ends the process.
unfoldable pub with_lock : Os → Name → (ℕ → World → Outcome) → World → Outcome
unfolding with_lock_found
with_lock os file f w = with_lock_found f w (find_or_add os.sem file w.sd)

-- What is done where the entry is found or added.
pub with_lock-some :
    (os : Os) (file : Name) (f : ℕ → World → Outcome) (w : World) {k : ℕ} {sd' : Shared}
    → find_or_add os.sem file w.sd ≡ (some k, sd')
    → with_lock os file f w ≡ f k (record w { sd = sd' })
unfolding with_lock with_lock_found
with_lock-some os file f w h = ap (with_lock_found f w) h

with_lock_found-continues :
    (f : ℕ → World → Outcome) (w : World) (r : Option ℕ × Shared) {w' : World}
    → with_lock_found f w r ≡ continues w'
    → (k : ℕ) × (v : World) × (v.locks ≡ w.locks) × (f k v ≡ continues w')
unfolding with_lock_found
with_lock_found-continues f w (none, sd) h = ground arith
with_lock_found-continues f w (some k, sd) h = (k, record w { sd = sd }, refl, h)

-- What goes on with the lock of a file was done with its entry, and the search for it leaves the
-- locks alone.
pub with_lock-continues :
    (os : Os) (file : Name) (f : ℕ → World → Outcome) (w : World) {w' : World}
    → with_lock os file f w ≡ continues w'
    → (k : ℕ) × (v : World) × (v.locks ≡ w.locks) × (f k v ≡ continues w')
unfolding with_lock
with_lock-continues os file f w h = with_lock_found-continues f w (find_or_add os.sem file w.sd) h
