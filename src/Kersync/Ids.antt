-- ===== src/Kersync/Ids.antt =====
-- The ids of the events of hw3/group/TURNED_IN_Qiyuan_Qiguang/kersync/kersync.c.
use cs.Base.{
  ℕ, ◌+◌, ◌≤◌, ◌<◌, ◌≡◌, ◌⊎◌, inl, inr, refl, sym, subst, ◌∙◌, Bool, true, false, Option, none,
  some, ◌∷◌, ltb, ◌==◌, arith, Bool-cases, Option-cases,
}
use cs.Base.Outcome.{ok}
use cs.Base.Family.{update}
use cs.Kersync.{Event, Kernel, max_event_id, event_init, doevent_open, write_event}
use cs.Kersync.Calls.{
  System, Step, open_event, enter, count, enter_close, check, sleep_on, leave, signal, drop, close,
  Reach, here, next,
}
use cs.Kersync.Lookup.{Entered, missed, found, enter-Entered, Unlinked, close-Unlinked}
use cs.Base.Int.{ℤ, pos, ◌+ℤ◌, ◌-ℤ◌}
use cs.Kersync.Effects.{
  Locked, Rewritten, Checked, Closed, count_up-Rewritten, count_down-Rewritten, wait_leave-Locked,
  sig_body-Locked, wait_check-Checked, close_body-Closed,
}

-- Ids are below the next one and at most the limit, and no two events have the same.
pub record HasIds (k : Kernel) : Type 0 where
  pub limited : k.next_event_id ≤ max_event_id + 1
  pub given : (a : ℕ) (e : Event) → k.heap a ≡ some e → e.event_id < k.next_event_id
  pub apart :
      (a b : ℕ) (e f : Event)
      → k.heap a ≡ some e
      → k.heap b ≡ some f
      → e.event_id ≡ f.event_id
      → a ≡ b

-- Every event of the second has its id from the first.
record SameIds (k k' : Kernel) : Type 0 where
  before :
      (b : ℕ) (x : Event)
      → k'.heap b ≡ some x
      → (y : Event) × (k.heap b ≡ some y) × (y.event_id ≡ x.event_id)
  counter : k'.next_event_id ≡ k.next_event_id

SameIds-HasIds : (k k' : Kernel) → SameIds k k' → HasIds k → HasIds k'
SameIds-HasIds k k' same h = record {
  limited = omega (arith, same.counter, h.limited);
  given = λ a e there.
      (let (y, was, id) = same.before a e there in
        omega (arith, h.given a y was, id, same.counter));
  apart = λ a b e f at_a at_b equal.
      (let (y, was, id) = same.before a e at_a in
        let (z, was', id') = same.before b f at_b in
        h.apart a b y z was was' (id ∙ equal ∙ sym id'));
}

kept : (k : Kernel) → SameIds k k
kept k = record { before = λ b x there. (x, there, refl); counter = refl }

rewritten :
    (k : Kernel) (a : ℕ) (e e' : Event)
    → k.heap a ≡ some e
    → e'.event_id ≡ e.event_id
    → SameIds k (write_event a e' k)
rewritten k a e e' there same = record {
  before = λ b x now. elim (Bool-cases (a == b)) [
    | inl at ↦ (e, ground arith, ground arith)
    | inr off ↦ (x, ground arith, refl)
  ];
  counter = refl;
}

freed : (k : Kernel) (a : ℕ) → SameIds k (record k { heap = update k.heap a none })
freed k a = record { before = λ b x now. (x, ground arith, refl); counter = refl }

relocked : (k : Kernel) (b : Bool) → SameIds k (record k { list_lock = b })
relocked k b = record { before = λ c x there. (x, there, refl); counter = refl }

entered : (k k' : Kernel) (p : Option (ℕ × ℤ)) → Entered k p k' → SameIds k k'
entered k k' p (missed none_found same) = subst (SameIds k) (sym same) (kept k)
entered k k' p (found a e is listed there now) = subst (SameIds k) (sym now) (relocked k true)

unlinked : (k k' : Kernel) (p : Option ℕ) → Unlinked k p k' → SameIds k k'
unlinked k k' p (Unlinked.missed none_found same) = subst (SameIds k) (sym same) (kept k)
unlinked k k' p (Unlinked.found a is listed now) =
    subst (SameIds k) (sym now) (record { before = λ b x there. (x, there, refl); counter = refl })

counted :
    (a : ℕ) (f : Event → Event) (b : Bool) (k k' : Kernel)
    → ((e : Event) → (f e).event_id ≡ e.event_id)
    → Rewritten a f b k k'
    → SameIds k k'
counted a f b k k' same done =
    let once = rewritten k a done.event (f done.event) done.there (same done.event) in
    subst (SameIds k) (sym done.after) (record { before = once.before; counter = refl })

locked : (a : ℕ) (c : ℤ) (k k' : Kernel) → Locked a k c k' → SameIds k k'
locked a c k k' done =
    subst (SameIds k) (sym done.after)
      (rewritten k a done.event (record done.event { e_lock = true }) done.there refl)

checked : (a : ℕ) (o : Option ℤ) (k k' : Kernel) → Checked a k o k' → SameIds k k'
checked a o k k' (Checked.gave_up c is done) = locked a c k k' done
checked a o k k' (Checked.passed e is there same) = subst (SameIds k) (sym same) (kept k)

closed : (a : ℕ) (k k' : Kernel) → Closed a k k' → SameIds k k'
closed a k k' (Closed.freed e there empty same) = subst (SameIds k) (sym same) (freed k a)
closed a k k' (Closed.marked done) =
    counted a (λ e. record e { invalid = true }) k.list_lock k k' (λ e. refl) done

abbrev opened : ℕ → Kernel → Kernel
opened a k = record k {
  heap = update k.heap a (some (event_init k.next_event_id));
  event_list = a ∷ k.event_list;
  next_event_id = k.next_event_id + 1;
}

-- An event of the kernel with one more is that one or was there.
opened-cases :
    (a : ℕ) (k : Kernel) (b : ℕ) (x : Event)
    → (opened a k).heap b ≡ some x
    → ((a ≡ b) × (x.event_id ≡ k.next_event_id)) ⊎ (k.heap b ≡ some x)
opened-cases a k b x there = elim (Bool-cases (a == b)) [
  | inl at ↦ inl (ground arith, ground arith)
  | inr off ↦ inr (ground arith)
]

opened-HasIds :
    (a : ℕ) (k : Kernel) → k.next_event_id ≤ max_event_id → HasIds k → HasIds (opened a k)
opened-HasIds a k room h = record {
  limited = omega (arith, room);
  given = λ b x there. elim (opened-cases a k b x there) [
    | inl (at, id) ↦ omega (arith, id)
    | inr was ↦ omega (arith, h.given b x was)
  ];
  apart = λ b c x y at_b at_c same. elim (opened-cases a k b x at_b) [
    | inl (at, id) ↦ elim (opened-cases a k c y at_c) [
      | inl (at', id') ↦ sym at ∙ at'
      | inr was ↦ absurd (omega (arith, h.given c y was, id, same))
    ]
    | inr was ↦ elim (opened-cases a k c y at_c) [
      | inl (at', id') ↦ absurd (omega (arith, h.given b x was, id', same))
      | inr was' ↦ h.apart b c x y was was' same
    ]
  ];
}

open-HasIds :
    (place : Option ℕ) (k k' : Kernel) (r : Bool)
    → doevent_open place k ≡ ok (r, k')
    → HasIds k
    → HasIds k'
unfolding doevent_open
open-HasIds place k k' r run h = elim (Bool-cases (ltb max_event_id k.next_event_id)) [
  | inl full ↦
      (let now : k' ≡ record k { list_lock = true } = ground arith in
        subst HasIds (sym now) (SameIds-HasIds k _ (relocked k true) h))
  | inr room ↦ elim (Option-cases place) [
    | inl no_memory ↦ absurd (ground arith)
    | inr (a, got) ↦
        (let now : k' ≡ opened a k = ground arith in
          subst HasIds (sym now) (opened-HasIds a k (ground (arith, room)) h))
  ]
]

Step-HasIds : {n : ℕ} {s t : System} → Step n s t → HasIds s.kernel → HasIds t.kernel
Step-HasIds {s = s} (open_event i place {r} {k} lt at free fresh run e) h =
    rw e (open-HasIds place s.kernel k r run h)
Step-HasIds {s = s} (enter i signals id {p} {k} lt at free run e) h =
    rw e (SameIds-HasIds s.kernel k (entered s.kernel k p (enter-Entered id s.kernel k p run)) h)
Step-HasIds {s = s} (count i a signals c {k} at run e) h = rw e (
    SameIds-HasIds s.kernel k
      (counted a (λ x. record x { count = c +ℤ pos 1 }) false s.kernel k (λ x. refl)
        (count_up-Rewritten a c s.kernel k run))
      h)
Step-HasIds {s = s} (enter_close i id {p} {k} lt at free run e) h =
    rw e (SameIds-HasIds s.kernel k (unlinked s.kernel k p (close-Unlinked id s.kernel k p run)) h)
Step-HasIds {s = s} (check i a {o} {k} at free run e) h =
    rw e
      (SameIds-HasIds s.kernel k (checked a o s.kernel k (wait_check-Checked a o s.kernel k run)) h)
Step-HasIds (sleep_on i a at e) h = rw e h
Step-HasIds {s = s} (leave i a {c} {k} at free run e) h =
    rw e
      (SameIds-HasIds s.kernel k (locked a c s.kernel k (wait_leave-Locked a c s.kernel k run)) h)
Step-HasIds {s = s} (signal i a {r} {c} {k} at free run e) h =
    rw e
      (SameIds-HasIds s.kernel k (locked a c s.kernel k (sig_body-Locked a r c s.kernel k run)) h)
Step-HasIds {s = s} (drop i a c {k} at run e) h = rw e (
    SameIds-HasIds s.kernel k
      (counted a (λ x. record x { count = c -ℤ pos 1; e_lock = false }) s.kernel.list_lock s.kernel
        k (λ x. refl) (count_down-Rewritten a c s.kernel k run))
      h)
Step-HasIds {s = s} (close i a {r} {k} at free run e) h =
    rw e (SameIds-HasIds s.kernel k (closed a s.kernel k (close_body-Closed a r s.kernel k run)) h)

pub Reach-HasIds : {n : ℕ} {s : System} → Reach n s → HasIds s.kernel
Reach-HasIds here = record {
  limited = omega arith;
  given = λ a e there. cc;
  apart = λ a b e f there. cc;
}
Reach-HasIds (next r step) = Step-HasIds step (Reach-HasIds r)
