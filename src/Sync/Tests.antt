-- ===== src/Sync/Tests.antt =====
-- Runs of the queue, the mutex and the threads of hw3/personal/SThread/sync.c.
use cs.Base.{ℕ, ◌<◌, ◌≡◌, ◌⊎◌, refl, Option, none, some, [], ◌∷◌, arith, get_elem?, replicate}
use cs.Base.Outcome.{ok, fault}
use cs.Base.Family.{update}
use cs.Sync.Queue.{QMember, Queue, Status, zero_member, q_init, q_first, q_push, q_pop, q_member}
use cs.Sync.Queue.Fifo.{IsValid, contents, enqueue, q_push_refines, q_pop_refines, q_first_refines}
use cs.Sync.Mutex.{
  Mutex, spins, suspends, release, mutex_init, lock_behind, mutex_lock, mutex_trylock, mutex_unlock,
  mutex_destroy,
}
use cs.Sync.Mutex.Refine.{Locks, Unlocks, first_thread, mutex_lock_refines, mutex_unlock_refines}
use cs.Sync.Mutex.Misuse.{destroy_final}
use cs.Sync.Threads.{outside, inside, suspended, System, Reach, here, next, lock}
use cs.Sync.Threads.Safety.{mutual_exclusion, no_lost_wake}

-- Thread 7 owns the mutex, taken twice; thread 8 waits.
abbrev pair : Queue
pair = record {
  member =
      record { thread = 7; count = 2 }
      ∷ record { thread = 8; count = 1 }
      ∷ replicate 23 zero_member;
  size = 2;
  head = 24;
  tail = 1;
}

abbrev seven : QMember
seven = record { thread = 7; count = 2 }

abbrev eight : QMember
eight = record { thread = 8; count = 1 }

-- Thread 7 owns the mutex, taken once; thread 8 waits.
abbrev once : Queue
once = record pair { member = record { thread = 7; count = 1 } ∷ eight ∷ replicate 23 zero_member }

pair-IsValid : IsValid pair
pair-IsValid = omega arith

once-IsValid : IsValid once
once-IsValid = omega arith

-- Popping the only member returns NULL.
pop_only :
    q_pop (record q_init { size = 1; tail = 0 }) ≡ ok (none, record q_init { head = 25; tail = 0 })
unfolding q_init q_pop
pop_only = refl

unlock_empty : mutex_unlock 7 mutex_init ≡ fault
unfolding mutex_unlock mutex_init q_init q_first q_member
unlock_empty = refl

q_push_refines_example :
    (s : Status) × (q' : Queue) × (q_push 9 pair ≡ ok (s, q'))
    × IsValid q'
    × ((s, contents q') ≡ enqueue 9 (contents pair))
    × (q'.head ≡ 24)
q_push_refines_example = q_push_refines 9 pair pair-IsValid

q_pop_refines_example :
    (p : Option ℕ) × (q' : Queue) × (q_pop pair ≡ ok (p, q'))
    × IsValid q'
    × (contents q' ≡ eight ∷ [])
    × (q'.head ≡ 25)
    × (p ≡ some 0)
q_pop_refines_example = q_pop_refines pair seven (eight ∷ []) pair-IsValid (omega arith) refl

q_first_refines_example :
    (q_first pair ≡ ok (some 0)) × (get_elem? pair.member 0 ≡ some seven) × (0 < 25)
q_first_refines_example = q_first_refines pair seven (eight ∷ []) pair-IsValid (omega arith) refl

mutex_lock_refines_example : Locks 9 suspends pair (mutex_lock 9 (release pair))
mutex_lock_refines_example = mutex_lock_refines 9 pair pair-IsValid (omega arith) (omega arith)

mutex_unlock_refines_example : Unlocks 7 pair seven (eight ∷ []) (mutex_unlock 7 (release pair))
mutex_unlock_refines_example =
    mutex_unlock_refines 7 pair seven (eight ∷ []) pair-IsValid (omega arith) refl

destroy_final_example :
    let dead = (mutex_destroy (release pair)).1 in
    (mutex_lock 7 dead ≡ ok (spins, dead))
    × (mutex_trylock 7 dead ≡ ok (spins, dead))
    × (mutex_unlock 7 dead ≡ ok (spins, none, dead))
destroy_final_example = destroy_final 7 (release pair)

-- Thread 0 locks, then thread 1.
abbrev owned : Mutex
owned = record {
  m = 0;
  queue = record q_init {
    member = record { thread = 0; count = 1 } ∷ replicate 24 zero_member;
    size = 1;
    tail = 0;
  };
}

abbrev waited : Mutex
waited = record {
  m = 0;
  queue = record q_init {
    member =
        record { thread = 0; count = 1 }
        ∷ record { thread = 1; count = 1 }
        ∷ replicate 23 zero_member;
    size = 2;
    tail = 1;
  };
}

abbrev first_in : System
first_in = record { mutex = owned; pc = update (λ _. outside) 0 inside; wakes = λ _. 0 }

abbrev contended : System
contended = record { mutex = waited; pc = update first_in.pc 1 suspended; wakes = λ _. 0 }

Reach-contended : Reach 2 contended
unfolding mutex_lock mutex_init q_init q_push lock_behind q_first q_member
Reach-contended =
    next (next here (lock 0 {mx = owned} (omega arith) (omega arith) (cc) refl refl))
      (lock 1 {mx = waited} (omega arith) (omega arith) (cc) refl refl)

mutual_exclusion_example : ◌≡◌ {A = ℕ} 0 0
mutual_exclusion_example =
    mutual_exclusion {s = contended} (omega arith) Reach-contended 0 0 refl refl

no_lost_wake_example :
    (j : ℕ) × (first_thread (contents waited.queue) ≡ some j)
    × ((contended.pc j ≡ inside) ⊎ ((contended.pc j ≡ suspended) × (◌≡◌ {A = ℕ} 0 1)))
no_lost_wake_example = no_lost_wake {s = contended} (omega arith) Reach-contended 1 refl
