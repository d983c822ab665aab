-- ===== src/Sync/Threads/Safety.antt =====
-- The threads of hw3/personal/SThread/sync.c in every reachable state.
use cs.Base.{
  ℕ, suc, ◌≤◌, ◌<◌, ◌≡◌, ◌≢◌, ◌⊎◌, inl, inr, refl, sym, ap, subst, ◌∙◌, true, false, Bool-cases,
  Option, some, List, [], ◌∷◌, ltb, leb, ◌==◌, arith, length,
}
use cs.Base.Outcome.{ok, ok-injective}
use cs.Base.Family.{update, total_weightless}
use cs.Sync.Queue.{QMember, max_q_size}
use cs.Sync.Queue.Fifo.{IsValid, contents, q_init-IsValid, contents-q_init}
use cs.Sync.Mutex.{Mutex, Reply, suspends, release, mutex_init, mutex_lock, mutex_unlock}
use cs.Sync.Mutex.Refine.{
  first_thread, abstract_lock, abstract_unlock, Locks, Unlocks, mutex_lock_refines,
  mutex_unlock_refines,
}
use cs.Sync.Threads.{
  Pc, outside, inside, suspended, System, after_lock, after_unlock, deliver, InRange, Step, lock,
  unlock, wake, start, Reach, here, next,
}
use cs.Sync.Threads.Line.{weight, total-lt}
use cs.Sync.Threads.Invariant.{
  LineInv, enter_empty, queue_up, relock, awake-outside, inside-first, wake_up, unlock_inner,
  unlock_last,
}

pub record Inv (n : ℕ) (s : System) : Type 0 where
  pub free : s.mutex.m ≡ 0
  pub valid : IsValid s.mutex.queue
  pub in_line : LineInv n (contents s.mutex.queue) s.pc s.wakes

-- The line after a lock of a thread that is awake, by the cases of `abstract_lock`.
line_lock :
    {n : ℕ} {pc : ℕ → Pc} {wakes : ℕ → ℕ} (i : ℕ) (l : List QMember)
    → n ≤ max_q_size
    → i < n
    → pc i ≢ suspended
    → LineInv n l pc wakes
    → let (r, l') = abstract_lock i suspends l in
      LineInv n l' (update pc i (after_lock r (pc i))) wakes
line_lock i [] few lt awake inv = enter_empty i lt inv
line_lock {n} {pc} {wakes} i (m ∷ rest) few lt awake inv = elim (Bool-cases (m.thread == i)) [
  | inl mine ↦ rw mine (relock i lt m rest inv (ground arith) awake)
  | inr theirs ↦ rw (theirs, room (ground arith)) (queue_up i lt m rest inv (ground arith) awake)
]
  where
    room : m.thread ≢ i → leb max_q_size (length (m ∷ rest)) ≡ false
    room other =
        ground (arith, inv.counted, total-lt n pc i lt (awake-outside i lt m rest inv other awake))

-- The line after the owner's unlock, by the cases of `abstract_unlock`.
line_unlock :
    {n : ℕ} {pc : ℕ → Pc} {wakes : ℕ → ℕ} (i : ℕ) (m : QMember) (rest : List QMember)
    → LineInv n (m ∷ rest) pc wakes
    → pc i ≡ inside
    → let (r, woken, free, l') = abstract_unlock i m rest in
      (free ≡ 0) × LineInv n l' (update pc i (after_unlock r inside)) (deliver woken wakes)
line_unlock {n} {pc} {wakes} i m rest inv e = elim (Bool-cases (m.count == 1)) [
  | inl once ↦ rw (once, mine) (refl, unlock_last i m rest inv own e)
  | inr more ↦
      rw (more, again more) (refl, unlock_inner i m rest inv own e (ground (arith, inv.line.1)))
]
  where
    own : m.thread ≡ i
    own = ground (arith, inside-first (m ∷ rest) i inv e)

    mine : i == m.thread ≡ true
    mine = ground (arith, own)

    again : m.count == 1 ≡ false → ltb 1 m.count ≡ true
    again more = ground (arith, inv.line.1)

-- A mutex with M free is its queue.
mutex-eq-release : (mx : Mutex) → mx.m ≡ 0 → mx ≡ release mx.queue
mutex-eq-release mx e = ground arith

Inv-lock :
    {n : ℕ} {s : System} (i : ℕ) {r : Reply} {mx : Mutex}
    → n ≤ max_q_size
    → Inv n s
    → i < n
    → InRange s.mutex.queue
    → s.pc i ≢ suspended
    → mutex_lock i s.mutex ≡ ok (r, mx)
    → Inv n (record { mutex = mx; pc = update s.pc i (after_lock r (s.pc i)); wakes = s.wakes })
Inv-lock {n} {s} i {r} {mx} few inv lt ranges awake run = record {
  free = ground (arith, same, locked.unlocked);
  valid = subst (λ (o : Reply × Mutex). IsValid o.1.queue) (sym same) locked.valid;
  in_line =
      subst
        (λ (o : Reply × List QMember).
          LineInv n o.1 (update s.pc i (after_lock o.0 (s.pc i))) s.wakes)
        (sym (ap (λ (o : Reply × Mutex). (o.0, contents o.1.queue)) same ∙ locked.sequence))
        (line_lock i (contents s.mutex.queue) few lt awake inv.in_line);
}
  where
    locked : Locks i suspends s.mutex.queue (mutex_lock i (release s.mutex.queue))
    locked = mutex_lock_refines i s.mutex.queue inv.valid (omega (arith, ranges.pops)) ranges.locks

    same : ◌≡◌ {A = Reply × Mutex} (r, mx) (locked.reply, locked.after)
    same =
        ok-injective
          (sym run ∙ ap (mutex_lock i) (mutex-eq-release s.mutex inv.free) ∙ locked.returns)

Inv-unlock :
    {n : ℕ} {s : System} (i : ℕ) {r : Reply} {woken : Option ℕ} {mx : Mutex} (l : List QMember)
    → contents s.mutex.queue ≡ l
    → Inv n s
    → InRange s.mutex.queue
    → s.pc i ≡ inside
    → mutex_unlock i s.mutex ≡ ok (r, woken, mx)
    → Inv n (record {
      mutex = mx;
      pc = update s.pc i (after_unlock r inside);
      wakes = deliver woken s.wakes;
    })
Inv-unlock {n} {s} i [] e inv ranges within run =
    cc (inside-first [] i (subst (λ k. LineInv n k s.pc s.wakes) e inv.in_line) within)
Inv-unlock {n} {s} i {r} {woken} {mx} (m ∷ rest) e inv ranges within run = record {
  free = ap (λ (o : View). o.2) view ∙ moved.0;
  valid = subst (λ (o : Reply × Option ℕ × Mutex). IsValid o.2.queue) (sym same) out.valid;
  in_line =
      subst
        (λ (o : View).
          LineInv n o.3 (update s.pc i (after_unlock o.0 inside)) (deliver o.1 s.wakes))
        (sym view) moved.1;
}
  where
    View : Type 0
    View = Reply × Option ℕ × ℕ × List QMember

    out : Unlocks i s.mutex.queue m rest (mutex_unlock i (release s.mutex.queue))
    out = mutex_unlock_refines i s.mutex.queue m rest inv.valid ranges.pops e

    same : ◌≡◌ {A = Reply × Option ℕ × Mutex} (r, woken, mx) (out.reply, out.woken, out.after)
    same =
        ok-injective
          (sym run ∙ ap (mutex_unlock i) (mutex-eq-release s.mutex inv.free) ∙ out.returns)

    view : ◌≡◌ {A = View} (r, woken, mx.m, contents mx.queue) (abstract_unlock i m rest)
    view =
        ap (λ (o : Reply × Option ℕ × Mutex). (o.0, o.1, o.2.m, contents o.2.queue)) same
        ∙ out.sequence

    moved :
        let (r', woken', free, l') = abstract_unlock i m rest in
        (free ≡ 0) × LineInv n l' (update s.pc i (after_unlock r' inside)) (deliver woken' s.wakes)
    moved = line_unlock i m rest (subst (λ k. LineInv n k s.pc s.wakes) e inv.in_line) within

Inv-wake :
    {n : ℕ} {s : System} (i k : ℕ) (l : List QMember)
    → contents s.mutex.queue ≡ l
    → Inv n s
    → s.pc i ≡ suspended
    → s.wakes i ≡ suc k
    → LineInv n l (update s.pc i inside) (update s.wakes i k)
Inv-wake {n} {s} i k [] e inv asleep message =
    absurd (ground (arith, (subst (λ x. LineInv n x s.pc s.wakes) e inv.in_line).present i))
Inv-wake {n} {s} i k (m ∷ rest) e inv asleep message =
    wake_up i m rest (subst (λ x. LineInv n x s.pc s.wakes) e inv.in_line) k asleep message

-- Every step of the threads keeps the invariant, with at most 25 threads.
pub Step-Inv : {n : ℕ} {s t : System} → n ≤ max_q_size → Step n s t → Inv n s → Inv n t
Step-Inv {n} few (lock i lt ranges awake run e) inv =
    subst (Inv n) (sym e) (Inv-lock i few inv lt ranges awake run)
Step-Inv {n} {s} few (unlock i lt ranges within run e) inv =
    subst (Inv n) (sym e) (Inv-unlock i (contents s.mutex.queue) refl inv ranges within run)
Step-Inv {n} {s} few (wake i k asleep message e) inv = subst (Inv n) (sym e) (record {
  free = inv.free;
  valid = inv.valid;
  in_line = Inv-wake i k (contents s.mutex.queue) refl inv asleep message;
})

Inv-start : (n : ℕ) → Inv n start
unfolding mutex_init
Inv-start n = record {
  free = refl;
  valid = q_init-IsValid;
  in_line =
      subst (λ l. LineInv n l (λ _. outside) (λ _. 0)) (sym contents-q_init)
        (record {
          counted = sym (total_weightless weight n (λ _. outside) (λ _. refl));
          distinct = tt;
          present = λ i. refl;
          bounded = λ i h. refl;
          idle = λ i h. refl;
          line = tt;
        });
}

pub Reach-Inv : {n : ℕ} {s : System} → n ≤ max_q_size → Reach n s → Inv n s
Reach-Inv {n} few here = Inv-start n
Reach-Inv few (next r st) = Step-Inv few st (Reach-Inv few r)

-- At most 25 threads that lock and unlock one mutex, each unlocking only while it is inside, are
-- never two at once in the critical section, while the counters of the mutex stay below INT_MAX.
pub mutual_exclusion :
    {n : ℕ} {s : System}
    → n ≤ max_q_size
    → Reach n s
    → (i j : ℕ) → s.pc i ≡ inside
    → s.pc j ≡ inside
    → i ≡ j
mutual_exclusion {s = s} few r i j in_i in_j = cc (
  inside-first (contents s.mutex.queue) i line in_i,
  inside-first (contents s.mutex.queue) j line in_j,
)
  where
    open (Reach-Inv few r) use {in_line as line}

line-leads :
    {n : ℕ} {pc : ℕ → Pc} {wakes : ℕ → ℕ} (l : List QMember) (i : ℕ)
    → LineInv n l pc wakes
    → pc i ≡ suspended
    → (j : ℕ) × (first_thread l ≡ some j) × ((pc j ≡ inside) ⊎ ((pc j ≡ suspended) × (wakes j ≡ 1)))
line-leads [] i inv e = absurd (ground (arith, inv.present i))
line-leads (m ∷ rest) i inv e = (m.thread, refl, ground (arith, inv.line.0))

-- No wake-up is lost, where at most 25 threads lock and unlock one mutex, each unlocking only while it
-- is inside, sleep in sthread_suspend only as a lock makes them, and are woken up by its unlocks only,
-- while the counters of the mutex stay below INT_MAX: when one of these threads sleeps, the first
-- thread of the queue is in the critical section, or it sleeps and the message that wakes it is in its
-- pipe.
pub no_lost_wake :
    {n : ℕ} {s : System}
    → n ≤ max_q_size
    → Reach n s
    → (i : ℕ) → s.pc i ≡ suspended
    → (j : ℕ) × (first_thread (contents s.mutex.queue) ≡ some j)
      × ((s.pc j ≡ inside) ⊎ ((s.pc j ≡ suspended) × (s.wakes j ≡ 1)))
no_lost_wake {s = s} few r i e = line-leads (contents s.mutex.queue) i (Reach-Inv few r).in_line e
