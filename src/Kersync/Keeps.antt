-- ===== src/Kersync/Keeps.antt =====
-- Every step of the processes of hw3/group/TURNED_IN_Qiyuan_Qiguang/kersync/kersync.c keeps the list
-- in order.
pub mod Always
use cs.Base.{
  ℕ, ◌≡◌, ◌≢◌, inl, inr, refl, Bool, true, false, Option, none, some, ◌∷◌, ltb, arith, Bool-cases,
}
use cs.Base.Int.{ℤ, pos, ◌+ℤ◌, ◌-ℤ◌}
use cs.Base.Outcome.{ok}
use cs.Base.Family.{update}
use cs.Kersync.{Event, Kernel, max_event_id, write_event, doevent_open}
use cs.Kersync.Calls.{
  Pc, idle, counting, closing, counted, checked, leaving, drowsy, asleep, go_on, start_count,
  System, wake_up, allocated, is_fresh, Step, open_event, enter, count, enter_close, check,
  sleep_on, leave, signal, drop, close, boot, Reach, here, next,
}
use cs.Kersync.Links.{counts, Distinct, Links, list_del-occurs, list_del-gone, list_del-Distinct}
use cs.Kersync.Lookup.{Entered, Unlinked, enter-Entered, close-Unlinked}
use cs.Kersync.Effects.{
  Locked, Rewritten, Checked, Closed, count_up-Rewritten, count_down-Rewritten, wait_leave-Locked,
  sig_body-Locked, wait_check-Checked, close_body-Closed,
}

module _ {k : Kernel} {pc : ℕ → Pc} (links : Links k pc) where
  -- A process goes on, and events are rewritten at most.
  pub Links-go :
      (k' : Kernel) (i : ℕ) (p' : Pc)
      → ((a : ℕ) → allocated (k'.heap a) ≡ allocated (k.heap a))
      → k'.event_list ≡ k.event_list
      → k'.list_lock ≡ k.list_lock
      → ((a : ℕ) → counts a p' ≡ false)
      → ((a : ℕ) → p' ≢ closing a)
      → Links k' (update pc i p')
  Links-go k' i p' same list lock off going = record {
    listed = λ a h. ground (arith, links.listed a, same a);
    distinct = rw list links.distinct;
    live = λ j a h. ground (arith, links.live j a, same a, going a);
    unlisted = λ j a h. ground (arith, links.unlisted j a, going a);
    closers = λ j l a h h'. ground (arith, links.closers j l a, going a);
    locked = λ j a h. ground (arith, links.locked j a, off a);
    counted_in = λ j a h. ground (arith, links.counted_in j a, off a);
    counters = λ j l a b h h'. ground (arith, links.counters j l a b, off a, off b);
  }

  pub Links-wake_up : (a : ℕ) → Links k (wake_up a pc)
  Links-wake_up a = record {
    listed = links.listed;
    distinct = links.distinct;
    live = λ j b h. ground (arith, links.live j b);
    unlisted = λ j b h. ground (arith, links.unlisted j b);
    closers = λ j l b h h'. ground (arith, links.closers j l b);
    locked = λ j b h. ground (arith, links.locked j b);
    counted_in = λ j b h. ground (arith, links.counted_in j b);
    counters = λ j l b c h h'. ground (arith, links.counters j l b c);
  }

  Links-write :
      (i a : ℕ) (p' : Pc) (e e' : Event)
      → k.heap a ≡ some e
      → ((b : ℕ) → counts b p' ≡ false)
      → ((b : ℕ) → p' ≢ closing b)
      → Links (write_event a e' k) (update pc i p')
  Links-write i a p' e e' there off going =
      Links-go (write_event a e' k) i p' (λ b. ground arith) refl refl off going

  open-Distinct :
      (place : Option ℕ) (r : Bool) (k' : Kernel)
      → is_fresh k place ≡ true
      → doevent_open place k ≡ ok (r, k')
      → Distinct k'.event_list
  unfolding doevent_open
  open-Distinct none r k' fresh run =
      let same : k'.event_list ≡ k.event_list = ground arith in rw same links.distinct
  open-Distinct (some a) r k' fresh run = elim (Bool-cases (ltb max_event_id k.next_event_id)) [
    | inl full ↦ (let same : k'.event_list ≡ k.event_list = ground arith in rw same links.distinct)
    | inr room ↦
        (let longer : k'.event_list ≡ a ∷ k.event_list = ground arith in
          rw longer (ground (arith, links.listed a), links.distinct))
  ]

  pub Links-open :
      (place : Option ℕ) (r : Bool) (k' : Kernel)
      → k.list_lock ≡ false
      → is_fresh k place ≡ true
      → doevent_open place k ≡ ok (r, k')
      → Links k' pc
  unfolding doevent_open
  Links-open place r k' free fresh run = record {
    listed = λ a h. ground (arith, links.listed a);
    distinct = open-Distinct place r k' fresh run;
    live = λ j a h. ground (arith, links.live j a);
    unlisted = λ j a h. ground (arith, links.unlisted j a, links.live j a);
    closers = links.closers;
    locked = λ j a h. ground (arith, links.locked j a);
    counted_in = λ j a h. ground (arith, links.counted_in j a);
    counters = links.counters;
  }

  pub Links-enter :
      (i : ℕ) (signals : Bool) (p : Option (ℕ × ℤ)) (k' : Kernel)
      → k.list_lock ≡ false
      → pc i ≡ idle
      → Entered k p k'
      → Links k' (update pc i (start_count signals p))
  Links-enter i signals p k' free at (Entered.missed e same) =
      rw (e, same) (Links-go k i idle (λ b. refl) refl refl (λ b. refl) (λ b h. cc))
  Links-enter i signals p k' free at (Entered.found a e is there found same) =
      rw (is, same)
        (record {
          listed = links.listed;
          distinct = links.distinct;
          live = λ j b h. ground (arith, links.live j b);
          unlisted = λ j b h. ground (arith, links.unlisted j b);
          closers = λ j l b h h'. ground (arith, links.closers j l b);
          locked = λ j b h. refl;
          counted_in = λ j b h. ground (arith, links.counted_in j b);
          counters = λ j l b c h h'. ground (arith, links.locked j b, links.locked l c);
        })

  -- The list lock is let go by the only process that counts.
  pub Links-count :
      (i a : ℕ) (signals : Bool) (c : ℤ) (f : Event → Event) (k' : Kernel)
      → pc i ≡ counting signals a c
      → Rewritten a f false k k'
      → Links k' (update pc i (counted signals a))
  Links-count i a signals c f k' at done = rw done.after (record {
    listed = λ b h. ground (arith, links.listed b, done.there);
    distinct = links.distinct;
    live = λ j b h. ground (arith, links.live j b, done.there);
    unlisted = λ j b h. ground (arith, links.unlisted j b);
    closers = λ j l b h h'. ground (arith, links.closers j l b);
    locked = λ j b h. ground (arith, links.counters i j a b);
    counted_in = λ j b h. ground (arith, links.counted_in j b);
    counters = λ j l b d h h'. ground (arith, links.counters j l b d);
  })

  pub Links-enter_close :
      (i : ℕ) (p : Option ℕ) (k' : Kernel)
      → k.list_lock ≡ false
      → pc i ≡ idle
      → Unlinked k p k'
      → Links k' (update pc i (go_on closing p))
  Links-enter_close i p k' free at (Unlinked.missed e same) =
      rw (e, same) (Links-go k i idle (λ b. refl) refl refl (λ b. refl) (λ b h. cc))
  Links-enter_close i p k' free at (Unlinked.found a is there same) =
      rw (is, same)
        (record {
          listed = λ b h. links.listed b (list_del-occurs a b k.event_list h);
          distinct = list_del-Distinct a k.event_list links.distinct;
          live = λ j b h. ground (arith, links.live j b, links.listed a there);
          unlisted = λ j b h. ground (
            arith,
            links.unlisted j b,
            list_del-occurs a b k.event_list,
            list_del-gone a k.event_list links.distinct,
          );
          closers = λ j l b h h'.
              ground (arith, links.closers j l b, links.unlisted j a, links.unlisted l a);
          locked = λ j b h. ground (arith, links.locked j b);
          counted_in = λ j b h. ground (arith, links.locked j b);
          counters = λ j l b d h h'. ground (arith, links.counters j l b d);
        })

  pub Links-lock :
      (i a : ℕ) (c : ℤ) (k' : Kernel) → Locked a k c k' → Links k' (update pc i (leaving a c))
  Links-lock i a c k' done = rw done.after (
      Links-write i a (leaving a c) done.event (record done.event { e_lock = true }) done.there
        (λ b. refl) (λ b h. cc))

  pub Links-check :
      (i a : ℕ) (o : Option ℤ) (k' : Kernel)
      → Checked a k o k'
      → Links k' (update pc i (checked a o))
  Links-check i a o k' (Checked.gave_up c is done) = rw is (Links-lock i a c k' done)
  Links-check i a o k' (Checked.passed e is there same) =
      rw (is, same) (Links-go k i (drowsy a) (λ b. refl) refl refl (λ b. refl) (λ b h. cc))

  pub Links-drop :
      (i a : ℕ) (f : Event → Event) (k' : Kernel)
      → Rewritten a f k.list_lock k k'
      → Links k' (update pc i idle)
  Links-drop i a f k' done =
      rw done.after
        (Links-write i a idle done.event (f done.event) done.there (λ b. refl) (λ b h. cc))

  pub Links-close :
      (i a : ℕ) (k' : Kernel) → pc i ≡ closing a → Closed a k k' → Links k' (update pc i idle)
  Links-close i a k' at (Closed.marked done) =
      Links-drop i a (λ e. record e { invalid = true }) k' done
  Links-close i a k' at (Closed.freed e there empty same) = rw same (record {
    listed = λ b h. ground (arith, links.listed b, links.unlisted i a);
    distinct = links.distinct;
    live = λ j b h. ground (arith, links.live j b, links.closers i j a);
    unlisted = λ j b h. ground (arith, links.unlisted j b);
    closers = λ j l b h h'. ground (arith, links.closers j l b);
    locked = λ j b h. ground (arith, links.locked j b);
    counted_in = λ j b h. ground (arith, links.counted_in j b);
    counters = λ j l b d h h'. ground (arith, links.counters j l b d);
  })
