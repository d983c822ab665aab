-- ===== src/Sync/Mutex.antt =====
-- The mutex routines of hw3/personal/SThread/sync.c. A call runs with the spin word M held from its
-- test_and_set to `mutex->M = 0`, so what it does in between is one step; a call that finds M taken
-- spins, and is the same call again later.
pub mod Misuse
pub mod Refine
use cs.Base.{
  ℕ, zero, suc, ◌+◌, ◌-◌, ◌≡◌, Bool, true, false, Option, none, some, List, ltb, leb, ◌==◌,
  if◌then◌else◌, set,
}
use cs.Base.Outcome.{Outcome, ok, fault, ◌>>=◌, int_inc, deref}
use cs.Sync.Queue.{
  Queue, QMember, q_init, q_empty, q_first, q_push, q_pop, q_member, write_member, Status, success,
  failure,
}

-- `struct sthread_mutex_struct`
pub record Mutex : Type 0 where
  pub m : ℕ
  pub queue : Queue

-- How a call leaves the routine: still in the `while(test_and_set(...))` loop; by a `return` (0, or
-- -1 as `error`); by running off the end of the function, with no value; or into sthread_suspend,
-- after which lock returns 0.
pub data Reply : Type 0 where
  spins done error no_value suspends : Reply

-- tas(): the old value, and 1 in its place.
unfoldable pub test_and_set : Mutex → ℕ × Mutex
test_and_set mx = (mx.m, record mx { m = 1 })

unfoldable pub mutex_init : Mutex
mutex_init = record { m = 0; queue = q_init }

unfoldable pub mutex_destroy : Mutex → Reply × Mutex
unfolding test_and_set q_empty
mutex_destroy mx =
    let (old, held) = test_and_set mx in
    if old == 0 then (if q_empty held.queue then (done, held) else (error, held)) else (spins, held)

-- `mutex->M = 0`
abbrev pub release : Queue → Mutex
release q = record { m = 0; queue = q }

-- `Q_first(pQ)->count = f(Q_first(pQ)->count)`
abbrev pub recount : Queue → Option ℕ → QMember → ℕ → Outcome Queue
recount q p first n = write_member q p (record first { count = n })

-- The branch of sthread_mutex_lock and sthread_mutex_trylock for a queue with threads in it.
-- `other` is how a call leaves that has queued its thread behind another.
unfoldable pub lock_behind : ℕ → Reply → Queue → Outcome (Reply × Mutex)
lock_behind self other q = do
  p ← q_first q
  first ← q_member q p
  (if first.thread == self
      then (do n ← int_inc first.count; q' ← recount q p first n; ok (no_value, release q'))
      else (do (s, q') ← q_push self q; ok (other, release q')))

unfoldable pub lock_held : ℕ → Reply → Mutex → Outcome (Reply × Mutex)
unfolding q_empty
lock_held self other mx =
    if q_empty mx.queue
    then (do (s, q') ← q_push self mx.queue; ok (done, release q'))
    else lock_behind self other mx.queue

unfoldable pub mutex_lock : ℕ → Mutex → Outcome (Reply × Mutex)
unfolding test_and_set lock_held
mutex_lock self mx =
    let (old, held) = test_and_set mx in
    if old == 0 then lock_held self suspends held else ok (spins, held)

-- As in the source a thread that is queued behind another returns 0.
unfoldable pub mutex_trylock : ℕ → Mutex → Outcome (Reply × Mutex)
unfolding test_and_set lock_held
mutex_trylock self mx =
    let (old, held) = test_and_set mx in
    if old == 0 then lock_held self done held else ok (spins, held)

-- The thread that `sthread_wake(Q_first(pQ)->ptr_thread)` writes to, after the pop.
unfoldable pub next_owner : Queue → Outcome (Option ℕ)
unfolding q_empty
next_owner q =
    if q_empty q then ok none else (do p ← q_first q; first ← q_member q p; ok (some first.thread))

-- With M held: the reply, the thread that is woken, and the mutex. The two `return -1` leave M at 1.
unfoldable pub unlock_held : ℕ → Mutex → Outcome (Reply × Option ℕ × Mutex)
unfolding next_owner
unlock_held self mx = do
  p ← q_first mx.queue
  first ← q_member mx.queue p
  (if first.count == 1
      then (if self == first.thread
          then (do (gone, q') ← q_pop mx.queue; woken ← next_owner q'; ok (done, woken, release q'))
          else ok (error, none, mx))
      else (if ltb 1 first.count
          then (do q' ← recount mx.queue p first (first.count - 1); ok (no_value, none, release q'))
          else ok (error, none, mx)))

unfoldable pub mutex_unlock : ℕ → Mutex → Outcome (Reply × Option ℕ × Mutex)
unfolding test_and_set unlock_held
mutex_unlock self mx =
    let (old, held) = test_and_set mx in
    if old == 1 then ok (spins, none, held) else unlock_held self held
