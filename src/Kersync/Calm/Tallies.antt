-- ===== src/Kersync/Calm/Tallies.antt =====
-- The calls of hw3/group/TURNED_IN_Qiyuan_Qiguang/kersync/kersync.c keep the counts exact while their
-- changes do not overlap.
use cs.Base.{
  ℕ, ◌+◌, ◌-◌, ◌≤◌, ◌<◌, ◌≡◌, ◌≢◌, inl, inr, refl, ap, subst, ◌∙◌, Bool, true, false, Option, none,
  some, ◌∷◌, ◌==◌, ltb, if◌then◌else◌, arith, Bool-cases,
}
use cs.Base.Int.{ℤ, pos, ◌+ℤ◌, ◌-ℤ◌, sub_lem}
use cs.Base.Outcome.{ok}
use cs.Base.Family.{update, total, total-update, weigh-le_total}
use cs.Kersync.{Event, Kernel, max_event_id, event_init, write_event, doevent_open, list_del}
use cs.Kersync.Calls.{
  Pc, idle, counting, closing, counted, checked, leaving, drowsy, go_on, start_count, allocated,
  is_fresh,
}
use cs.Kersync.Links.{occurs, Links}
use cs.Kersync.Lookup.{Entered, Unlinked}
use cs.Kersync.Effects.{Locked, Rewritten, Checked, Closed}
use cs.Kersync.Calm.{refs, uses, copy, Calm, Tally, unused, below, Tally-go, Tally-write}

-- The list lock does not matter for the counts.
Tally-locked :
    {n : ℕ} {k : Kernel} {pc : ℕ → Pc} (b : Bool)
    → Tally n k pc
    → Tally n (record k { list_lock = b }) pc
Tally-locked b tally = record {
  exact = tally.exact;
  alive = tally.alive;
  current = tally.current;
  bounded = tally.bounded;
}

module _ {n : ℕ} {k : Kernel} {pc : ℕ → Pc} (tally : Tally n k pc) where
  Tally-new :
      (a : ℕ)
      → allocated (k.heap a) ≡ false
      → Tally n
          (record k {
            heap = update k.heap a (some (event_init k.next_event_id));
            event_list = a ∷ k.event_list;
            next_event_id = k.next_event_id + 1;
          })
          pc
  Tally-new a free = record {
    exact = λ b c h. elim (Bool-cases (a == b)) [
      | inl at ↦
          (let here : a ≡ b = ground arith in
            let none_yet : c ≡ pos 0 = ground arith in
            subst (λ x. c ≡ pos (total (refs x) n pc)) here (rw (unused a tally free) none_yet))
      | inr off ↦ tally.exact b c (ground arith)
    ];
    alive = λ i b h. ground (arith, tally.alive i b);
    current = λ i b c d h h'. ground (arith, tally.current i b c d, tally.alive i b);
    bounded = tally.bounded;
  }

  pub Tally-open :
      (place : Option ℕ) (r : Bool) (k' : Kernel)
      → is_fresh k place ≡ true
      → doevent_open place k ≡ ok (r, k')
      → Tally n k' pc
  unfolding doevent_open
  Tally-open none r k' fresh run =
      let locked : k' ≡ record k { list_lock = true } = ground arith in
      rw locked (Tally-locked true tally)
  Tally-open (some a) r k' fresh run = elim (Bool-cases (ltb max_event_id k.next_event_id)) [
    | inl full ↦
        (let locked : k' ≡ record k { list_lock = true } = ground arith in
          rw locked (Tally-locked true tally))
    | inr room ↦
        (let made : k' ≡ record k {
          heap = update k.heap a (some (event_init k.next_event_id));
          event_list = a ∷ k.event_list;
          next_event_id = k.next_event_id + 1;
        } =
            ground arith in
          rw made (Tally-new a (ground arith)))
  ]

  -- A call ends that counts nowhere, or finds no event.
  Tally-end : (i : ℕ) → i < n → ((b : ℕ) → refs b (pc i) ≡ 0) → Tally n k (update pc i idle)
  Tally-end i lt bare =
      Tally-go tally k i idle lt (λ b. refl) (λ b. ground (arith, bare b)) (λ b h. cc)
        (λ b c d h. cc)

  pub Tally-enter :
      (i : ℕ) (signals : Bool) (p : Option (ℕ × ℤ)) (k' : Kernel)
      → i < n
      → pc i ≡ idle
      → Entered k p k'
      → Tally n k' (update pc i (start_count signals p))
  Tally-enter i signals p k' lt at (Entered.missed e same) =
      rw (e, same) (Tally-end i lt (λ b. ground arith))
  Tally-enter i signals p k' lt at (Entered.found a e is there found same) =
      rw (is, same)
        (Tally-go tally (record k { list_lock = true }) i (counting signals a e.count) lt
          (λ b. refl) (λ b. ground arith) (λ b h. ground arith) (λ b c d h h'. ground arith))

  pub Tally-enter_close :
      (i : ℕ) (p : Option ℕ) (k' : Kernel)
      → i < n
      → pc i ≡ idle
      → ((a : ℕ) → occurs a k.event_list ≡ true → allocated (k.heap a) ≡ true)
      → Unlinked k p k'
      → Tally n k' (update pc i (go_on closing p))
  Tally-enter_close i p k' lt at listed (Unlinked.missed e same) =
      rw (e, same) (Tally-end i lt (λ b. ground arith))
  Tally-enter_close i p k' lt at listed (Unlinked.found a is there same) =
      rw (is, same)
        (Tally-go tally (record k { event_list = list_del a k.event_list }) i (closing a) lt
          (λ b. refl) (λ b. ground arith) (λ b h. ground (arith, listed a there)) (λ b c d h. cc))

  -- The count is read under the event's lock.
  pub Tally-lock :
      (i a : ℕ) (c : ℤ) (k' : Kernel)
      → pc i ≢ idle
      → ((b : ℕ) → refs b (pc i) ≡ (if a == b then 1 else 0))
      → Locked a k c k'
      → Tally n k' (update pc i (leaving a c))
  Tally-lock i a c k' busy counts done = rw done.after (
      Tally-go tally (write_event a (record done.event { e_lock = true }) k) i (leaving a c)
        (below tally i busy) (λ b. ground (arith, done.there)) (λ b. ground (arith, counts b))
        (λ b h. ground (arith, done.there)) (λ b x d h h'. ground (arith, done.there, done.copied)))

  pub Tally-check :
      (i a : ℕ) (o : Option ℤ) (k' : Kernel)
      → pc i ≡ Pc.waiting a
      → Checked a k o k'
      → Tally n k' (update pc i (checked a o))
  Tally-check i a o k' at (Checked.gave_up c is done) =
      rw is (Tally-lock i a c k' (ground arith) (λ b. ground arith) done)
  Tally-check i a o k' at (Checked.passed e is there same) =
      rw (is, same)
        (Tally-go tally k i (drowsy a) (below tally i (ground arith)) (λ b. refl)
          (λ b. ground arith) (λ b h. ground arith) (λ b c d h. cc))

  -- The count that a process has read is that of the event still.
  still_right :
      (i a : ℕ) (c : ℤ) (e : Event)
      → copy a (pc i) ≡ some c
      → k.heap a ≡ some e
      → c ≡ pos (total (refs a) n pc)
  still_right i a c e read there =
      tally.current i a c e.count read (ground arith) ∙ tally.exact a e.count (ground arith)

  pub Tally-count :
      (i a : ℕ) (signals : Bool) (c : ℤ) (k' : Kernel)
      → Calm pc
      → pc i ≡ counting signals a c
      → Rewritten a (λ e. record e { count = c +ℤ pos 1 }) false k k'
      → Tally n k' (update pc i (counted signals a))
  Tally-count i a signals c k' calm at done =
      let lt : i < n = below tally i (ground arith) in
      let here : c ≡ pos (total (refs a) n pc) =
        still_right i a c done.event (ground arith) done.there in
      let more : total (refs a) n pc + 1 ≡ total (refs a) n (update pc i (counted signals a)) =
        ground (arith, total-update (refs a) n pc i (counted signals a) lt) in
      rw done.after (
        Tally-locked false (
          Tally-write tally i a (counted signals a) done.event
            (record done.event { count = c +ℤ pos 1 }) lt done.there
            (λ j other. ground (arith, calm i j a)) (ap (λ x. x +ℤ pos 1) here ∙ ap pos more)
            (λ b h. ground arith) (λ b h. ground (arith, done.there)) (λ b. ground arith)))

  pub Tally-drop :
      (i a : ℕ) (c : ℤ) (k' : Kernel)
      → Calm pc
      → pc i ≡ leaving a c
      → Rewritten a (λ e. record e { count = c -ℤ pos 1; e_lock = false }) k.list_lock k k'
      → Tally n k' (update pc i idle)
  Tally-drop i a c k' calm at done =
      let lt : i < n = below tally i (ground arith) in
      let here : c ≡ pos (total (refs a) n pc) =
        still_right i a c done.event (ground arith) done.there in
      let one : 1 ≤ total (refs a) n pc = ground (arith, weigh-le_total (refs a) n pc i lt) in
      let less : total (refs a) n pc - 1 ≡ total (refs a) n (update pc i idle) =
        ground (arith, total-update (refs a) n pc i idle lt) in
      rw done.after (
        Tally-write tally i a idle done.event
          (record done.event { count = c -ℤ pos 1; e_lock = false }) lt done.there
          (λ j other. ground (arith, calm i j a))
          (ap (λ x. x -ℤ pos 1) here ∙ sub_lem (total (refs a) n pc) 1 one ∙ ap pos less)
          (λ b h. ground arith) (λ b h. cc) (λ b. refl))

  -- The last of a close: the event is freed, which nobody counts in.
  Tally-free :
      (i a : ℕ) (e : Event)
      → Links k pc
      → pc i ≡ closing a
      → k.heap a ≡ some e
      → e.count ≡ pos 0
      → Tally n (record k { heap = update k.heap a none }) (update pc i idle)
  Tally-free i a e links at there empty = record {
    exact = λ b c h. rw (← rest b) (tally.exact b c (ground arith));
    alive = λ j b h. elim (Bool-cases (i == j)) [
      | inl mine ↦ absurd (ground arith)
      | inr other ↦ ground (arith, tally.alive j b, alone j b)
    ];
    current = λ j b c d h h'. ground (arith, tally.current j b c d);
    bounded = λ j h. ground (arith, tally.bounded j);
  }
    where
      rest : (b : ℕ) → total (refs b) n pc ≡ total (refs b) n (update pc i idle)
      rest b =
          omega (
            arith,
            total-update (refs b) n pc i idle (below tally i (ground arith)),
            ap (refs b) at,
          )

      empty_total : pos 0 ≡ pos (total (refs a) n pc)
      empty_total = tally.exact a (pos 0) (ground arith)

      uncounted : (j : ℕ) → j < n → refs a (pc j) ≡ 0
      uncounted j lt = ground (arith, empty_total, weigh-le_total (refs a) n pc j lt)

      alone : (j b : ℕ) → i == j ≡ false → uses b (pc j) ≡ true → a == b ≡ false
      alone j b other h = ground (
        arith,
        uncounted j (below tally j (ground arith)),
        links.closers i j a,
        links.counted_in j a,
        links.unlisted i a,
      )

  pub Tally-close :
      (i a : ℕ) (k' : Kernel)
      → Links k pc
      → pc i ≡ closing a
      → Closed a k k'
      → Tally n k' (update pc i idle)
  Tally-close i a k' links at (Closed.freed e there empty same) =
      rw same (Tally-free i a e links at there empty)
  Tally-close i a k' links at (Closed.marked done) = rw done.after (
      Tally-go tally (write_event a (record done.event { invalid = true }) k) i idle
        (below tally i (ground arith)) (λ b. ground (arith, done.there)) (λ b. ground arith)
        (λ b h. cc) (λ b c d h. cc))
