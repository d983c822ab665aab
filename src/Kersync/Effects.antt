-- ===== src/Kersync/Effects.antt =====
-- What the calls of hw3/group/TURNED_IN_Qiyuan_Qiguang/kersync/kersync.c do to the event that they
-- hold.
use cs.Base.{
  ℕ, ◌≡◌, inl, inr, refl, Bool, true, false, Option, none, some, arith, Option-cases, Bool-cases,
}
use cs.Base.Int.{ℤ, pos, ◌+ℤ◌, ◌-ℤ◌, eq_ℤ, eq_ℤ_iff}
use cs.Base.Outcome.{ok}
use cs.Base.Family.{update}
use cs.Kersync.{
  Event, Kernel, write_event, count_up, count_down, lock_event, wait_check, wait_leave, sig_body,
  close_body,
}

-- The count of the event at `a` is read under its lock.
pub record Locked (a : ℕ) (k : Kernel) (c : ℤ) (k' : Kernel) : Type 0 where
  pub event : Event
  pub there : k.heap a ≡ some event
  pub copied : c ≡ event.count
  pub after : k' ≡ write_event a (record event { e_lock = true }) k

-- The event at `a` is rewritten to what `f` makes of it, and the list lock is left at `b`.
pub record Rewritten (a : ℕ) (f : Event → Event) (b : Bool) (k k' : Kernel) : Type 0 where
  pub event : Event
  pub there : k.heap a ≡ some event
  pub after : k' ≡ record (write_event a (f event) k) { list_lock = b }

pub count_up-Rewritten :
    (a : ℕ) (c : ℤ) (k k' : Kernel)
    → count_up a c k ≡ ok k'
    → Rewritten a (λ e. record e { count = c +ℤ pos 1 }) false k k'
unfolding count_up
count_up-Rewritten a c k k' run = elim (Option-cases (k.heap a)) [
  | inl e ↦ absurd (ground arith)
  | inr (x, e) ↦ record { event = x; there = e; after = ground arith }
]

pub count_down-Rewritten :
    (a : ℕ) (c : ℤ) (k k' : Kernel)
    → count_down a c k ≡ ok k'
    → Rewritten a (λ e. record e { count = c -ℤ pos 1; e_lock = false }) k.list_lock k k'
unfolding count_down
count_down-Rewritten a c k k' run = elim (Option-cases (k.heap a)) [
  | inl e ↦ absurd (ground arith)
  | inr (x, e) ↦ record { event = x; there = e; after = ground arith }
]

pub wait_leave-Locked :
    (a : ℕ) (c : ℤ) (k k' : Kernel) → wait_leave a k ≡ ok (c, k') → Locked a k c k'
unfolding wait_leave lock_event
wait_leave-Locked a c k k' run = elim (Option-cases (k.heap a)) [
  | inl e ↦ absurd (ground arith)
  | inr (x, e) ↦ record { event = x; there = e; copied = ground arith; after = ground arith }
]

pub sig_body-Locked :
    (a : ℕ) (r : Bool) (c : ℤ) (k k' : Kernel) → sig_body a k ≡ ok (r, c, k') → Locked a k c k'
unfolding sig_body lock_event
sig_body-Locked a r c k k' run = elim (Option-cases (k.heap a)) [
  | inl e ↦ absurd (ground arith)
  | inr (x, e) ↦ record { event = x; there = e; copied = ground arith; after = ground arith }
]

-- A wait gives up at an invalid event, and goes on to sleep at another.
pub data Checked (a : ℕ) (k : Kernel) (o : Option ℤ) (k' : Kernel) : Type 0 where
  gave_up : (c : ℤ) → o ≡ some c → Locked a k c k' → Checked a k o k'
  passed : (e : Event) → o ≡ none → k.heap a ≡ some e → k' ≡ k → Checked a k o k'

pub wait_check-Checked :
    (a : ℕ) (o : Option ℤ) (k k' : Kernel) → wait_check a k ≡ ok (o, k') → Checked a k o k'
unfolding wait_check lock_event
wait_check-Checked a o k k' run = elim (Option-cases (k.heap a)) [
  | inl e ↦ absurd (ground arith)
  | inr (x, e) ↦ elim (Bool-cases x.invalid) [
    | inl closed ↦
        gave_up x.count (ground arith)
          (record { event = x; there = e; copied = refl; after = ground arith })
    | inr still ↦ passed x (ground arith) e (ground arith)
  ]
]

-- A close frees the event where its count is 0, and marks it invalid elsewhere.
pub data Closed (a : ℕ) (k k' : Kernel) : Type 0 where
  freed :
      (e : Event)
      → k.heap a ≡ some e
      → e.count ≡ pos 0
      → k' ≡ record k { heap = update k.heap a none }
      → Closed a k k'
  marked : Rewritten a (λ e. record e { invalid = true }) k.list_lock k k' → Closed a k k'

pub close_body-Closed :
    (a : ℕ) (r : Bool) (k k' : Kernel) → close_body a k ≡ ok (r, k') → Closed a k k'
unfolding close_body
close_body-Closed a r k k' run = elim (Option-cases (k.heap a)) [
  | inl e ↦ absurd (ground arith)
  | inr (x, e) ↦ elim (Bool-cases (eq_ℤ x.count (pos 0))) [
    | inl empty ↦ freed x e ((eq_ℤ_iff x.count (pos 0)).0 empty) (ground arith)
    | inr used ↦ marked (record { event = x; there = e; after = ground arith })
  ]
]
