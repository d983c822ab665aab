-- ===== src/Sync/Threads.antt =====
-- Threads that share one mutex of hw3/personal/SThread/sync.c through sthread_mutex_lock and
-- sthread_mutex_unlock. A thread sleeps in sthread_suspend on its own pipe, where a wake-up that
-- comes early waits for it (sthread_wake of sthread.c).
pub mod Line
pub mod Invariant
pub mod Safety
use cs.Base.{
  ℕ, suc, ◌+◌, ◌<◌, ◌≡◌, ◌≢◌, Bool, true, false, Option, none, some, List, ◌==◌, if◌then◌else◌,
}
use cs.Base.Outcome.{ok, int_max}
use cs.Base.Family.{update}
use cs.Sync.Queue.{Queue, max_q_size}
use cs.Sync.Queue.Fifo.{contents}
use cs.Sync.Mutex.{
  Mutex, Reply, spins, done, error, no_value, suspends, mutex_init, mutex_lock, mutex_unlock,
}
use cs.Sync.Mutex.Refine.{Few}

-- Where a thread stands: not using the mutex, in the critical section, or in sthread_suspend.
pub data Pc : Type 0 where
  outside inside suspended : Pc

-- `wakes i` counts the messages in the pipe of thread `i`.
pub record System : Type 0 where
  pub mutex : Mutex
  pub pc : ℕ → Pc
  pub wakes : ℕ → ℕ

abbrev pub after_lock : Reply → Pc → Pc
after_lock done p = inside
after_lock no_value p = inside
after_lock suspends p = suspended
after_lock _ p = p

abbrev pub after_unlock : Reply → Pc → Pc
after_unlock done p = outside
after_unlock _ p = p

-- sthread_wake
abbrev pub deliver : Option ℕ → (ℕ → ℕ) → ℕ → ℕ
deliver none w = w
deliver (some t) w = update w t (w t + 1)

-- The `int` counters of the mutex have room for one more call.
pub record InRange (q : Queue) : Type 0 where
  pub pops : q.head + 1 < int_max
  pub locks : Few (contents q)

-- One step of thread `i` of `n`. A thread that is not asleep may lock, also again; it unlocks only
-- while it is in the critical section; and a sleeping thread goes on when its pipe has a message.
pub data Step (n : ℕ) (s : System) (t : System) : Type 0 where
  lock :
      (i : ℕ) {r : Reply} {mx : Mutex}
      → i < n
      → InRange s.mutex.queue
      → s.pc i ≢ suspended
      → mutex_lock i s.mutex ≡ ok (r, mx)
      → t ≡ record { mutex = mx; pc = update s.pc i (after_lock r (s.pc i)); wakes = s.wakes }
      → Step n s t
  unlock :
      (i : ℕ) {r : Reply} {woken : Option ℕ} {mx : Mutex}
      → i < n
      → InRange s.mutex.queue
      → s.pc i ≡ inside
      → mutex_unlock i s.mutex ≡ ok (r, woken, mx)
      → t ≡ record {
        mutex = mx;
        pc = update s.pc i (after_unlock r inside);
        wakes = deliver woken s.wakes;
      }
      → Step n s t
  wake :
      (i k : ℕ)
      → s.pc i ≡ suspended
      → s.wakes i ≡ suc k
      → t ≡ record s { pc = update s.pc i inside; wakes = update s.wakes i k }
      → Step n s t

abbrev pub start : System
start = record { mutex = mutex_init; pc = λ _. outside; wakes = λ _. 0 }

pub data Reach (n : ℕ) : System → Type 0 where
  here : Reach n start
  next : {s t : System} → Reach n s → Step n s t → Reach n t
