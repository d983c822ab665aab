-- ===== src/Kersync/Lookup.antt =====
-- What the calls of hw3/group/TURNED_IN_Qiyuan_Qiguang/kersync/kersync.c do under the list lock.
use cs.Base.{
  ℕ, ◌≡◌, inl, inr, refl, ap, subst, ◌∙◌, true, Option, none, some, List, [], ◌∷◌, arith,
  Option-cases,
}
use cs.Base.Int.{ℤ}
use cs.Base.Outcome.{ok, Outcome-cases, ok-injective}
use cs.Kersync.{
  Event, Kernel, find_event_by_id, count_read, doevent_enter, list_del, unlink, close_find,
}
use cs.Kersync.Links.{occurs}

-- What the search returns stands in the list.
pub find-occurs :
    (heap : ℕ → Option Event) (l : List ℕ) (id a : ℕ)
    → find_event_by_id heap l id ≡ ok (some a)
    → occurs a l ≡ true
unfolding find_event_by_id
find-occurs heap [] id a h = ground arith
find-occurs heap (f ∷ l) id a h = ground (arith, find-occurs heap l id a)

-- A call that finds an event reads its count and holds the list lock; one that finds none changes
-- nothing.
pub data Entered (k : Kernel) (p : Option (ℕ × ℤ)) (k' : Kernel) : Type 0 where
  missed : p ≡ none → k' ≡ k → Entered k p k'
  found :
      (a : ℕ) (e : Event)
      → p ≡ some (a, e.count)
      → occurs a k.event_list ≡ true
      → k.heap a ≡ some e
      → k' ≡ record k { list_lock = true }
      → Entered k p k'

count_read-Entered :
    (p₀ : Option ℕ) (k k' : Kernel) (p : Option (ℕ × ℤ))
    → ((a : ℕ) → p₀ ≡ some a → occurs a k.event_list ≡ true)
    → count_read p₀ k ≡ ok (p, k')
    → Entered k p k'
unfolding count_read
count_read-Entered none k k' p there h = missed (ground arith) (ground arith)
count_read-Entered (some a) k k' p there h = elim (Option-cases (k.heap a)) [
  | inl e ↦ absurd (ground arith)
  | inr (x, e) ↦ found a x (ground arith) (there a refl) e (ground arith)
]

pub enter-Entered :
    (id : ℕ) (k k' : Kernel) (p : Option (ℕ × ℤ)) → doevent_enter id k ≡ ok (p, k') → Entered k p k'
unfolding doevent_enter
enter-Entered id k k' p h = elim (Outcome-cases (find_event_by_id k.heap k.event_list id)) [
  | inl e ↦ absurd (ground arith)
  | inr (p₀, e) ↦
      count_read-Entered p₀ k k' p (λ a is. find-occurs k.heap k.event_list id a (e ∙ ap ok is))
        (rw e at h)
]

-- A close that finds an event takes it out of the list.
pub data Unlinked (k : Kernel) (p : Option ℕ) (k' : Kernel) : Type 0 where
  missed : p ≡ none → k' ≡ k → Unlinked k p k'
  found :
      (a : ℕ)
      → p ≡ some a
      → occurs a k.event_list ≡ true
      → k' ≡ record k { event_list = list_del a k.event_list }
      → Unlinked k p k'

unlink-Unlinked :
    (p₀ : Option ℕ) (k : Kernel)
    → ((a : ℕ) → p₀ ≡ some a → occurs a k.event_list ≡ true)
    → Unlinked k (unlink p₀ k).0 (unlink p₀ k).1
unfolding unlink
unlink-Unlinked none k there = Unlinked.missed refl refl
unlink-Unlinked (some a) k there = Unlinked.found a refl (there a refl) refl

pub close-Unlinked :
    (id : ℕ) (k k' : Kernel) (p : Option ℕ) → close_find id k ≡ ok (p, k') → Unlinked k p k'
unfolding close_find
close-Unlinked id k k' p h = elim (Outcome-cases (find_event_by_id k.heap k.event_list id)) [
  | inl e ↦ absurd (ground arith)
  | inr (p₀, e) ↦
      (let same : ◌≡◌ {A = Option ℕ × Kernel} (unlink p₀ k) (p, k') = ok-injective (rw e at h) in
        subst (λ (o : Option ℕ × Kernel). Unlinked k o.0 o.1) same
          (unlink-Unlinked p₀ k (λ a is. find-occurs k.heap k.event_list id a (e ∙ ap ok is))))
]
