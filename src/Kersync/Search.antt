-- ===== src/Kersync/Search.antt =====
-- The search for an event by its id in hw3/group/TURNED_IN_Qiyuan_Qiguang/kersync/kersync.c.
use cs.Base.{
  ℕ, ◌≤◌, ◌≡◌, ◌≢◌, inl, inr, refl, sym, ◌∙◌, true, false, Option, none, some, List, [], ◌∷◌, ◌==◌,
  arith, Bool-cases, Option-cases,
}
use cs.Base.Outcome.{ok}
use cs.Kersync.{Event, Kernel, max_event_id, find_event_by_id}
use cs.Kersync.Calls.{allocated, System, Reach}
use cs.Kersync.Links.{occurs}
use cs.Kersync.Ids.{Reach-HasIds}
use cs.Kersync.Keeps.Always.{Reach-Links}

-- What the search for an id comes to: no event of the list has it, or the event that is found is of the list and is
-- the only allocated event with the id.
pub data Search (k : Kernel) (id : ℕ) : Type 0 where
  unknown :
      find_event_by_id k.heap k.event_list id ≡ ok none
      → ((a : ℕ) (e : Event) → occurs a k.event_list ≡ true → k.heap a ≡ some e → e.event_id ≢ id)
      → Search k id
  known :
      (a : ℕ) (e : Event)
      → find_event_by_id k.heap k.event_list id ≡ ok (some a)
      → occurs a k.event_list ≡ true
      → k.heap a ≡ some e
      → e.event_id ≡ id
      → e.event_id ≤ max_event_id
      → ((b : ℕ) (f : Event) → k.heap b ≡ some f → f.event_id ≡ id → b ≡ a)
      → Search k id

-- The same for the search in a part of the list.
data SearchIn (heap : ℕ → Option Event) (l : List ℕ) (id : ℕ) : Type 0 where
  nowhere :
      find_event_by_id heap l id ≡ ok none
      → ((a : ℕ) (e : Event) → occurs a l ≡ true → heap a ≡ some e → e.event_id ≢ id)
      → SearchIn heap l id
  somewhere :
      (a : ℕ) (e : Event)
      → find_event_by_id heap l id ≡ ok (some a)
      → occurs a l ≡ true
      → heap a ≡ some e
      → e.event_id ≡ id
      → SearchIn heap l id

find-SearchIn :
    (heap : ℕ → Option Event) (l : List ℕ) (id : ℕ)
    → ((a : ℕ) → occurs a l ≡ true → allocated (heap a) ≡ true)
    → SearchIn heap l id
unfolding find_event_by_id
find-SearchIn heap [] id live = nowhere refl (λ a e in_none. absurd cc)
find-SearchIn heap (a ∷ l) id live = elim (Option-cases (heap a)) [
  | inl gone ↦ absurd (ground (arith, live a))
  | inr (e, there) ↦ elim (Bool-cases (e.event_id == id)) [
    | inl same ↦
        somewhere a e (rw (find_event_by_id, there, same) refl) (ground arith) there (ground arith)
    | inr other ↦
        further e there other (find-SearchIn heap l id (λ b h. live b (ground (arith, h))))
  ]
]
  where
    further :
        (e : Event)
        → heap a ≡ some e
        → (e.event_id == id) ≡ false
        → SearchIn heap l id
        → SearchIn heap (a ∷ l) id
    further e there other (nowhere run none_has) =
        nowhere (rw (find_event_by_id, there, other) run) (λ b f h at. elim (Bool-cases (a == b)) [
          | inl eq ↦ λ is. ground (arith, there, other, at, eq, is)
          | inr ne ↦ none_has b f (ground (arith, h)) at
        ])
    further e there other (somewhere b f run listed at is) =
        somewhere b f (rw (find_event_by_id, there, other) run) (ground (arith, listed)) at is

-- In every reachable state the search for an id ends without a fault: it finds no event, and then no event of the
-- list has the id; or it finds an event of the list with the id, which is at most 5000, and no other
-- allocated event has that id.
pub find_exact : {n : ℕ} {s : System} → Reach n s → (id : ℕ) → Search s.kernel id
find_exact {s = s} r id =
    go (find-SearchIn s.kernel.heap s.kernel.event_list id (Reach-Links r).listed)
  where
    go : SearchIn s.kernel.heap s.kernel.event_list id → Search s.kernel id
    go (nowhere run none_has) = unknown run none_has
    go (somewhere a e run listed there is) =
        let ids = Reach-HasIds r in
        known a e run listed there is (omega (arith, ids.given a e there, ids.limited))
          (λ b f at same. ids.apart b a f e at there (same ∙ sym is))
