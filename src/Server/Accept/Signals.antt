-- ===== src/Server/Accept/Signals.antt =====
-- The count of clients in Midterm/src/server.c: the loop of `accept_connections` as the steps that
-- read and write `num_clients`, with SIGCHLD in between. `num_clients++` is a load and a store;
-- signals that wait are one signal. A child ends, it is not stopped.
pub mod Bounds
pub mod Leak
use gtu_cse344_system_progra.Base.{
  ℕ, zero, suc, ◌+◌, ◌-◌, ◌≤◌, ◌<◌, ◌≡◌, refl, Bool, true, false, arith,
}

-- What the loop is about to do: the test for those that wait, the test for the client it has read
-- (with `tryConnect`), to count, to store the count it has loaded, or to fork; or `exitFailure` has
-- ended it.
pub data Pc : Type 0 where
  at_top counts forks exited : Pc
  has_read : ℕ → Pc
  loaded : ℕ → Pc

-- `waiting` is `wait_que.size`; `live` counts the children that have not ended.
pub record Places : Type 0 where
  pub pc : Pc
  pub num_clients : ℕ
  pub waiting : ℕ
  pub live : ℕ
  pub pending : Bool

-- A client that is read is ignored while `client_fd`, which is not set before its first use, is -1.
pub data Step (max_clients : ℕ) (s : Places) : Places → Type 0 where
  take_waiting :
      s.pc ≡ at_top
      → s.num_clients < max_clients
      → 0 < s.waiting
      → Step max_clients s (record s { pc = counts; waiting = s.waiting - 1 })
  read_request :
      s.pc ≡ at_top
      → ¬ ((s.num_clients < max_clients) × (0 < s.waiting))
      → (try_connect : ℕ) → Step max_clients s (record s { pc = has_read try_connect })
  admit :
      {b : ℕ}
      → s.pc ≡ has_read b
      → s.num_clients < max_clients
      → s.waiting ≡ 0
      → Step max_clients s (record s { pc = counts })
  wait :
      s.pc ≡ has_read 0
      → ¬ ((s.num_clients < max_clients) × (s.waiting ≡ 0))
      → Step max_clients s (record s { pc = at_top; waiting = s.waiting + 1 })
  turn_away :
      {b : ℕ}
      → s.pc ≡ has_read b
      → ¬ (b ≡ 0)
      → ¬ ((s.num_clients < max_clients) × (s.waiting ≡ 0))
      → Step max_clients s (record s { pc = at_top })
  turn_away_fails :
      {b : ℕ}
      → s.pc ≡ has_read b
      → ¬ (b ≡ 0)
      → ¬ ((s.num_clients < max_clients) × (s.waiting ≡ 0))
      → Step max_clients s (record s { pc = exited })
  ignore : {b : ℕ} → s.pc ≡ has_read b → Step max_clients s (record s { pc = at_top })
  load : s.pc ≡ counts → Step max_clients s (record s { pc = loaded s.num_clients })
  store :
      {k : ℕ} → s.pc ≡ loaded k → Step max_clients s (record s { pc = forks; num_clients = k + 1 })
  fork : s.pc ≡ forks → Step max_clients s (record s { pc = at_top; live = s.live + 1 })
  no_fork : s.pc ≡ forks → Step max_clients s (record s { pc = exited })
  child_ends : 0 < s.live → Step max_clients s (record s { live = s.live - 1; pending = true })
  client_termination_handler :
      s.pending ≡ true
      → Step max_clients s (record s { pending = false; num_clients = s.num_clients - 1 })

abbrev pub at_start : Places
at_start = record { pc = at_top; num_clients = 0; waiting = 0; live = 0; pending = false }

pub data Reach (max_clients : ℕ) : Places → Type 0 where
  start : Reach max_clients at_start
  next : {s t : Places} → Reach max_clients s → Step max_clients s t → Reach max_clients t
