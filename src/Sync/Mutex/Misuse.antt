-- ===== src/Sync/Mutex/Misuse.antt =====
-- Calls of hw3/personal/SThread/sync.c by threads that do not own the mutex, and calls after
-- sthread_mutex_destroy.
use cs.Base.{ℕ, ◌+◌, ◌-◌, ◌<◌, ◌≡◌, ◌≢◌, none, some, List, [], ◌∷◌, ◌++◌, arith, length}
use cs.Base.Outcome.{ok, int_max}
use cs.Sync.Queue.{max_q_size, QMember, Queue}
use cs.Sync.Queue.Fifo.{IsValid, contents}
use cs.Sync.Mutex.{
  Mutex, spins, done, error, no_value, release, mutex_lock, mutex_trylock, mutex_unlock,
  mutex_destroy,
}
use cs.Sync.Mutex.Refine.{
  Few, first_thread, Locks, Unlocks, mutex_trylock_refines, mutex_unlock_refines,
}

-- A trylock on a mutex that another thread owns, with room in the queue, returns 0, as if it had
-- the lock, leaves the owner first, and leaves the caller last in the queue.
pub trylock_owned :
    (self : ℕ) (q : Queue) (m : QMember) (rest : List QMember)
    → IsValid q
    → q.head < int_max
    → Few (contents q)
    → contents q ≡ m ∷ rest
    → m.thread ≢ self
    → length (contents q) < max_q_size
    → (mx : Mutex) × (mutex_trylock self (release q) ≡ ok (done, mx))
      × (first_thread (contents mx.queue) ≡ some m.thread)
      × (contents mx.queue ≡ contents q ++ (record { thread = self; count = 1 } ∷ []))
trylock_owned self q m rest v small few e other room =
    let out : Locks self done q (mutex_trylock self (release q)) =
      mutex_trylock_refines self q v small few in
    (
      out.after,
      ground (arith, out.returns, out.sequence),
      ground (arith, out.sequence),
      ground (arith, out.sequence),
    )

-- An unlock by a thread that is not the owner, of a mutex that the owner has locked more than once,
-- is not refused: it takes one of the owner's locks away.
pub unlock_foreign :
    (self : ℕ) (q : Queue) (m : QMember) (rest : List QMember)
    → IsValid q
    → q.head + 1 < int_max
    → contents q ≡ m ∷ rest
    → m.thread ≢ self
    → 1 < m.count
    → (mx : Mutex) × (mutex_unlock self (release q) ≡ ok (no_value, none, mx))
      × (contents mx.queue ≡ record m { count = m.count - 1 } ∷ rest)
unlock_foreign self q m rest v small e other again =
    let out : Unlocks self q m rest (mutex_unlock self (release q)) =
      mutex_unlock_refines self q m rest v small e in
    (out.after, ground (arith, out.returns, out.sequence), ground (arith, out.sequence))

-- After sthread_mutex_destroy, whether it returned 0 or -1 or found M taken, every lock and trylock
-- and unlock spins and changes nothing.
pub destroy_final :
    (self : ℕ) (mx : Mutex)
    → let dead = (mutex_destroy mx).1 in
      (mutex_lock self dead ≡ ok (spins, dead))
      × (mutex_trylock self dead ≡ ok (spins, dead))
      × (mutex_unlock self dead ≡ ok (spins, none, dead))
unfolding mutex_destroy mutex_lock mutex_trylock mutex_unlock
destroy_final self mx = ground arith

lock_taken : (self : ℕ) (mx : Mutex) → mx.m ≡ 1 → mutex_lock self mx ≡ ok (spins, mx)
unfolding mutex_lock
lock_taken self mx e = ground arith

unlock_taken : (self : ℕ) (mx : Mutex) → mx.m ≡ 1 → mutex_unlock self mx ≡ ok (spins, none, mx)
unfolding mutex_unlock
unlock_taken self mx e = ground arith

-- An unlock by another thread than the owner that is refused returns with M taken, so that every
-- later lock, the owner's unlock too, spins for ever.
pub unlock_refused :
    (self owner : ℕ) (q : Queue) (m : QMember) (rest : List QMember)
    → IsValid q
    → q.head + 1 < int_max
    → contents q ≡ m ∷ rest
    → m.thread ≢ self
    → m.count ≡ 1
    → (mx : Mutex) × (mutex_unlock self (release q) ≡ ok (error, none, mx))
      × (mutex_lock owner mx ≡ ok (spins, mx))
      × (mutex_unlock owner mx ≡ ok (spins, none, mx))
unlock_refused self owner q m rest v small e other once =
    let out : Unlocks self q m rest (mutex_unlock self (release q)) =
      mutex_unlock_refines self q m rest v small e in
    (
      out.after,
      ground (arith, out.returns, out.sequence),
      lock_taken owner out.after (ground (arith, out.sequence)),
      unlock_taken owner out.after (ground (arith, out.sequence)),
    )
