-- ===== src/Sync/Mutex/Refine.antt =====
-- The mutex routines of hw3/personal/SThread/sync.c against a mutex that is the bare sequence of its
-- owner and the threads behind it.
use cs.Base.{
  ℕ, ◌+◌, ◌-◌, ◌≤◌, ◌<◌, ◌≡◌, ◌≢◌, inl, inr, refl, ap, ap₂, ◌∙◌, Option, none, some, List, [], ◌∷◌,
  ltb, ◌==◌, if◌then◌else◌, set, length, length-set, get_or-set_self, arith, Bool-cases, All,
}
use cs.Base.Outcome.{Outcome, ok, int_max}
use cs.Sync.Queue.{QMember, Queue, zero_member, write_member, q_member}
use cs.Sync.Queue.Fifo.{
  IsValid, window, contents, length-contents, place-ne, window-set_outside, enqueue, q_push_refines,
  first_place, q_first_refines, q_pop_refines, q_empty_refines, contents-cons,
}
use cs.Sync.Mutex.{
  Mutex, Reply, done, error, no_value, suspends, release, lock_behind, lock_held, mutex_lock,
  mutex_trylock, next_owner, mutex_unlock,
}

-- What lock (`other = suspends`) and trylock (`other = done`) promise of the sequence.
abbrev pub abstract_lock : ℕ → Reply → List QMember → Reply × List QMember
abstract_lock self other [] = (done, record { thread = self; count = 1 } ∷ [])
abstract_lock self other (m ∷ rest) =
    if m.thread == self
    then (no_value, record m { count = m.count + 1 } ∷ rest)
    else (other, (enqueue self (m ∷ rest)).1)

abbrev pub first_thread : List QMember → Option ℕ
first_thread [] = none
first_thread (m ∷ rest) = some m.thread

-- The reply, the thread woken, M as it is left, and the sequence.
abbrev pub abstract_unlock : ℕ → QMember → List QMember → Reply × Option ℕ × ℕ × List QMember
abstract_unlock self m rest =
    if m.count == 1
    then (if self == m.thread
        then (done, first_thread rest, 0, rest)
        else (error, none, 1, m ∷ rest))
    else (if ltb 1 m.count
        then (no_value, none, 0, record m { count = m.count - 1 } ∷ rest)
        else (error, none, 1, m ∷ rest))

-- Rewriting the first member through Q_first's pointer rewrites the head of the sequence.
recount_refines :
    (q : Queue) (m : QMember) (rest : List QMember) (v : QMember)
    → IsValid q
    → contents q ≡ m ∷ rest
    → (q' : Queue) × (write_member q (some (first_place q)) v ≡ ok q')
      × IsValid q'
      × (contents q' ≡ v ∷ rest)
      × (q'.head ≡ q.head)
recount_refines q m rest v valid e = (
  q',
  ground arith,
  record {
    storage = length-set q.member _ _ ∙ valid.storage;
    fits = valid.fits;
    joined = valid.joined;
  },
  contents-cons q' ne
      ∙ ap₂ ◌∷◌ (get_or-set_self q.member (first_place q) v zero_member (omega arith)) (
          window-set_outside q.member (q.head + 2) (q.size - 1) (first_place q) v
            (λ k lt c. place-ne (q.head + 1) 0 (k + 1) (omega arith) (omega arith) (omega arith))
          ∙ tails),
  refl,
)
  where
    q' : Queue
    q' = record q { member = set q.member (first_place q) v }

    ne : q.size ≢ 0
    ne z = omega (arith, length-contents q, ap (length {0} {A = QMember}) e)

    tails : window q.member (q.head + 2) (q.size - 1) ≡ rest
    tails = cc (contents-cons q ne)

-- What a lock routine returns and leaves, when its queue holds `q` and M is its own.
pub record Locks (self : ℕ) (other : Reply) (q : Queue) (out : Outcome (Reply × Mutex))
    : Type 0 where
  pub reply : Reply
  pub after : Mutex
  pub returns : out ≡ ok (reply, after)
  pub unlocked : after.m ≡ 0
  pub valid : IsValid after.queue
  pub sequence : (reply, contents after.queue) ≡ abstract_lock self other (contents q)
  pub same_head : after.queue.head ≡ q.head

-- No owner has taken the lock so often that its count overflows.
abbrev pub Few : List QMember → Type 0
Few = All (λ m. m.count < int_max)

module _ (self : ℕ) (other : Reply) (q : Queue) (v : IsValid q) (small : q.head < int_max) where
  lock_behind_refines :
      (m : QMember) (rest : List QMember)
      → contents q ≡ m ∷ rest
      → m.count < int_max
      → Locks self other q (lock_behind self other q)
  unfolding lock_behind q_member
  lock_behind_refines m rest e few =
      let (first, read, inside) = q_first_refines q m rest v small e in
      elim (Bool-cases (m.thread == self)) [
        | inl mine ↦
            (let (q', wrote, valid, seq, same) =
                recount_refines q m rest (record m { count = m.count + 1 }) v e in
              record {
                reply = no_value;
                after = release q';
                returns = ground arith;
                unlocked = refl;
                valid = valid;
                sequence = ground arith;
                same_head = same;
              })
        | inr theirs ↦
            (let (s, q', wrote, valid, seq, same) = q_push_refines self q v in
              record {
                reply = other;
                after = release q';
                returns = ground arith;
                unlocked = refl;
                valid = valid;
                sequence = ground arith;
                same_head = same;
              })
      ]

  lock_held_refines :
      (l : List QMember)
      → contents q ≡ l
      → Few l
      → Locks self other q (lock_held self other (record { m = 1; queue = q }))
  unfolding lock_held
  lock_held_refines [] e few =
      let (s, q', wrote, valid, seq, same) = q_push_refines self q v in
      record {
        reply = done;
        after = release q';
        returns = ground (arith, q_empty_refines q);
        unlocked = refl;
        valid = valid;
        sequence = ground arith;
        same_head = same;
      }
  lock_held_refines (m ∷ rest) e few =
      let locked = lock_behind_refines m rest e few.0 in
      record {
        reply = locked.reply;
        after = locked.after;
        returns = ground (arith, q_empty_refines q);
        unlocked = locked.unlocked;
        valid = locked.valid;
        sequence = locked.sequence;
        same_head = locked.same_head;
      }

-- With M free, a valid queue, `head` below INT_MAX, and an owner, if any, that has the lock less than INT_MAX times,
-- sthread_mutex_lock returns with M free again and does to the sequence what `abstract_lock` does: it
-- enters an empty one and counts its owner's relock. Behind another thread it suspends the caller,
-- which it puts at the end of the queue if there is room for it, and leaves out of a full one.
pub mutex_lock_refines :
    (self : ℕ) (q : Queue)
    → IsValid q
    → q.head < int_max
    → Few (contents q)
    → Locks self suspends q (mutex_lock self (release q))
unfolding mutex_lock
mutex_lock_refines self q v small few =
    lock_held_refines self suspends q v small (contents q) refl few

-- sthread_mutex_trylock does the same, and where lock would suspend it returns 0.
pub mutex_trylock_refines :
    (self : ℕ) (q : Queue)
    → IsValid q
    → q.head < int_max
    → Few (contents q)
    → Locks self done q (mutex_trylock self (release q))
unfolding mutex_trylock
mutex_trylock_refines self q v small few =
    lock_held_refines self done q v small (contents q) refl few

next_owner_refines :
    (q : Queue) (l : List QMember)
    → IsValid q
    → q.head < int_max
    → contents q ≡ l
    → next_owner q ≡ ok (first_thread l)
unfolding next_owner q_member
next_owner_refines q [] v small e = ground (arith, q_empty_refines q)
next_owner_refines q (m ∷ rest) v small e =
    let (first, read, inside) = q_first_refines q m rest v small e in
    ground (arith, q_empty_refines q)

-- What an unlock returns and leaves, when its queue holds `q`, first of all `m`.
pub record Unlocks (self : ℕ) (q : Queue) (m : QMember) (rest : List QMember)
    (out : Outcome (Reply × Option ℕ × Mutex)) : Type 0 where
  pub reply : Reply
  pub woken : Option ℕ
  pub after : Mutex
  pub returns : out ≡ ok (reply, woken, after)
  pub valid : IsValid after.queue
  pub sequence : (reply, woken, after.m, contents after.queue) ≡ abstract_unlock self m rest
  pub near_head : after.queue.head ≤ q.head + 1

-- With M free, a valid queue that is not empty, and `head + 1` below INT_MAX, sthread_mutex_unlock does what
-- `abstract_unlock` does. Where the first thread has the lock more than once, it counts down,
-- whichever thread calls, and returns with M free. Where it has the lock once, its own unlock hands
-- the lock to the next thread and wakes it, and the unlock by another thread returns -1 with M still
-- held. Where its count is 0, it returns -1 with M still held.
pub mutex_unlock_refines :
    (self : ℕ) (q : Queue) (m : QMember) (rest : List QMember)
    → IsValid q
    → q.head + 1 < int_max
    → contents q ≡ m ∷ rest
    → Unlocks self q m rest (mutex_unlock self (release q))
unfolding mutex_unlock q_member
mutex_unlock_refines self q m rest v small e =
    let (first, read, inside) = q_first_refines q m rest v (omega arith) e in
    elim (Bool-cases (m.count == 1)) [
      | inl last ↦ elim (Bool-cases (self == m.thread)) [
        | inl mine ↦
            (let (p, q', popped, valid, seq, moved, pointer) =
                q_pop_refines q m rest v (omega arith) e in
              record {
                reply = done;
                woken = first_thread rest;
                after = release q';
                returns = ground (arith, next_owner_refines q' rest valid (omega arith) seq);
                valid = valid;
                sequence = ground arith;
                near_head = omega arith;
              })
        | inr theirs ↦ record {
          reply = error;
          woken = none;
          after = record { m = 1; queue = q };
          returns = ground arith;
          valid = v;
          sequence = ground arith;
          near_head = omega arith;
        }
      ]
      | inr more ↦ elim (Bool-cases (ltb 1 m.count)) [
        | inl again ↦
            (let (q', wrote, valid, seq, same) =
                recount_refines q m rest (record m { count = m.count - 1 }) v e in
              record {
                reply = no_value;
                woken = none;
                after = release q';
                returns = ground arith;
                valid = valid;
                sequence = ground arith;
                near_head = omega arith;
              })
        | inr never ↦ record {
          reply = error;
          woken = none;
          after = record { m = 1; queue = q };
          returns = ground arith;
          valid = v;
          sequence = ground arith;
          near_head = omega arith;
        }
      ]
    ]
