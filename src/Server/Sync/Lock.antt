-- ===== src/Server/Sync/Lock.antt =====
-- The reader-writer lock of Midterm/src/sync.c, a semaphore at a time: the processes that enter and
-- leave it, interleaved in any order.
use gtu_cse344_system_progra.Base.{ℕ, ◌+◌, ◌-◌, ◌<◌, ◌≡◌, ◌≢◌}
use gtu_cse344_system_progra.Base.Family.{update}

-- The fields of `File` that the lock uses. The count is a number, on which `reader_count--` stops at
-- 0: see `count_positive` of Server/Sync/Safety.antt.
pub record Lock : Type 0 where
  pub reader_count : ℕ
  pub reader_mutex : ℕ
  pub writer_mutex : ℕ

-- Where a process stands.
pub data Pc : Type 0 where
  outside : Pc
  counted : Pc  -- reader_enter, behind `reader_count++`
  admitted : Pc  -- reader_enter, before its `sem_post`
  reading : Pc
  uncounted : Pc  -- reader_exit, behind `reader_count--`
  released : Pc  -- reader_exit, before its last `sem_post`
  queued : Pc  -- writer_enter, before its second `sem_wait`
  writing : Pc
  leaving : Pc  -- writer_exit, before its second `sem_post`

-- One step of one process. `sem_wait` goes on at a positive value only. The count is changed by the
-- process that has just taken `reader_mutex`, so this is one step with the taking.
pub data Move (m : Lock) : Pc → Lock → Pc → Type 0 where
  count_in :
      0 < m.reader_mutex
      → Move m outside
          (record m { reader_mutex = m.reader_mutex - 1; reader_count = m.reader_count + 1 })
          counted
  first_reader :
      m.reader_count ≡ 1
      → 0 < m.writer_mutex
      → Move m counted (record m { writer_mutex = m.writer_mutex - 1 }) admitted
  later_reader : m.reader_count ≢ 1 → Move m counted m admitted
  read_unlock : Move m admitted (record m { reader_mutex = m.reader_mutex + 1 }) reading
  count_out :
      0 < m.reader_mutex
      → Move m reading
          (record m { reader_mutex = m.reader_mutex - 1; reader_count = m.reader_count - 1 })
          uncounted
  last_reader :
      m.reader_count ≡ 0
      → Move m uncounted (record m { writer_mutex = m.writer_mutex + 1 }) released
  other_reader : m.reader_count ≢ 0 → Move m uncounted m released
  exit_unlock : Move m released (record m { reader_mutex = m.reader_mutex + 1 }) outside
  write_lock :
      0 < m.writer_mutex → Move m outside (record m { writer_mutex = m.writer_mutex - 1 }) queued
  write_enter :
      0 < m.reader_mutex → Move m queued (record m { reader_mutex = m.reader_mutex - 1 }) writing
  write_exit : Move m writing (record m { reader_mutex = m.reader_mutex + 1 }) leaving
  write_unlock : Move m leaving (record m { writer_mutex = m.writer_mutex + 1 }) outside

-- A process is named by an index below their number.
pub record System : Type 0 where
  pub lock : Lock
  pub pc : ℕ → Pc

pub data Step (n : ℕ) (s : System) : System → Type 0 where
  turn :
      (i : ℕ) {m : Lock} {p : Pc}
      → i < n
      → Move s.lock (s.pc i) m p
      → Step n s (record { lock = m; pc = update s.pc i p })

-- As `init_file` leaves it.
abbrev pub fresh : System
fresh = record {
  lock = record { reader_count = 0; reader_mutex = 1; writer_mutex = 1 };
  pc = λ _. outside;
}

pub data Reach (n : ℕ) : System → Type 0 where
  start : Reach n fresh
  next : {s t : System} → Reach n s → Step n s t → Reach n t
