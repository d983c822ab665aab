-- ===== src/Kersync/Tests.antt =====
-- Runs of hw3/group/TURNED_IN_Qiyuan_Qiguang/kersync/kersync.c.
use cs.Base.{ℕ, ◌≡◌, ◌≢◌, refl, Bool, true, false, none, some, [], ◌∷◌, arith}
use cs.Base.Int.{ℤ, pos}
use cs.Base.Outcome.{fault}
use cs.Base.Family.{update, total}
use cs.Kersync.{
  Event, Kernel, doevent_init, event_init, find_event_by_id, doevent_open, count_read, count_up,
  count_down, doevent_enter, lock_event, wait_check, sig_body, list_del, unlink, close_find,
  close_body,
}
use cs.Kersync.Calls.{
  idle, counting, waiting, drowsy, asleep, signalling, closing, System, wake_up, open_event, enter,
  count, enter_close, check, signal, drop, close, boot, Reach, here, next, stay,
}
use cs.Kersync.Calm.{refs, CalmReach, CalmReach-Reach}
use cs.Kersync.Safety.{count_exact}
use cs.Kersync.Stranded.{waiter_stranded}
use cs.Kersync.Limit.{open_deadlocks}
use cs.Kersync.Search.{Search, find_exact}

abbrev event : Bool → ℤ → Bool → Event
event invalid c held = record { event_id = 0; invalid = invalid; count = c; e_lock = held }

-- Process 0 has opened event 0, at place 7.
abbrev opened : Kernel
opened = record {
  heap = update (λ _. none) 7 (some (event_init 0));
  event_list = 7 ∷ [];
  next_event_id = 1;
  list_lock = false;
}

-- Process 0 has read its count, in a wait or a signal.
abbrev enters : Bool → System
enters signals = record {
  kernel = record opened { list_lock = true };
  pc = update boot.pc 0 (counting signals 7 (pos 0));
}

abbrev counted : Kernel
counted = record opened { heap = update opened.heap 7 (some (event false (pos 1) false)) }

abbrev in_wait : System
in_wait = record { kernel = counted; pc = update (enters false).pc 0 (waiting 7) }

CalmReach-in_wait : CalmReach 2 in_wait
unfolding doevent_open doevent_enter count_read find_event_by_id count_up
CalmReach-in_wait =
    CalmReach.next
      (CalmReach.next
        (CalmReach.next CalmReach.here (λ i j a h h'. absurd cc)
          (open_event 0 (some 7) {k = opened} (omega arith) refl refl refl refl refl))
        (λ i j a h h'. absurd cc)
        (enter 0 false 0 {p = some (7, pos 0)} {k = record opened { list_lock = true }}
          (omega arith) refl refl refl refl))
      (λ i j a h h'. ground arith) (count 0 7 false (pos 0) {k = counted} refl refl refl)

Reach-in_wait : Reach 2 in_wait
Reach-in_wait = CalmReach-Reach CalmReach-in_wait

-- Process 1 is closing it.
abbrev in_close : System
in_close = record {
  kernel = record counted { event_list = [] };
  pc = update in_wait.pc 1 (closing 7);
}

abbrev closed : Kernel
closed = record in_close.kernel { heap = update counted.heap 7 (some (event true (pos 1) false)) }

-- Process 0 passes the check before process 1 comes to close.
abbrev passed : System
passed = record { kernel = counted; pc = update in_wait.pc 0 (drowsy 7) }

abbrev passed_in_close : System
passed_in_close = record {
  kernel = record counted { event_list = [] };
  pc = update passed.pc 1 (closing 7);
}

abbrev missed : System
missed = record { kernel = closed; pc = update (wake_up 7 passed_in_close.pc) 1 idle }

Reach-missed : Reach 2 missed
unfolding wait_check lock_event close_find find_event_by_id unlink list_del close_body
Reach-missed =
    next
      (next (next Reach-in_wait (check 0 7 {o = none} {k = counted} refl refl refl refl))
        (enter_close 1 0 {p = some 7} (omega arith) refl refl refl refl))
      (close 1 7 {r = false} {k = closed} refl refl refl refl)

-- Process 0 signals the event and process 1 comes to wait on it. Both have read its count as 1, to
-- count out and in; the write of process 0 undoes that of process 1, and process 2 then closes the
-- event and frees it under the waiter.
lost_update_test : (s : System) × Reach 3 s × (s.pc 1 ≡ waiting 7) × (wait_check 7 s.kernel ≡ fault)
unfolding doevent_open doevent_enter count_read find_event_by_id count_up count_down sig_body
    lock_event close_find unlink list_del close_body wait_check
lost_update_test =
    let r₁ : Reach 3 _ = next here (open_event 0 (some 7) (omega arith) refl refl refl refl refl) in
    let r₂ : Reach 3 _ = next r₁ (enter 0 true 0 (omega arith) refl refl refl refl) in
    let r₃ : Reach 3 _ = next r₂ (count 0 7 true (pos 0) refl refl refl) in
    let r₄ : Reach 3 _ = next r₃ (signal 0 7 refl refl refl refl) in
    let r₅ : Reach 3 _ = next r₄ (enter 1 false 0 (omega arith) refl refl refl refl) in
    let r₆ : Reach 3 _ = next r₅ (count 1 7 false (pos 1) refl refl refl) in
    let r₇ : Reach 3 _ = next r₆ (drop 0 7 (pos 1) refl refl refl) in
    let r₈ : Reach 3 _ = next r₇ (enter_close 2 0 (omega arith) refl refl refl refl) in
    let r₉ : Reach 3 _ = next r₈ (close 2 7 refl refl refl refl) in (_, r₉, refl, refl)

count_exact_example : pos 1 ≡ pos (total (refs 7) 2 in_wait.pc)
count_exact_example = count_exact CalmReach-in_wait 7 (event false (pos 1) false) refl

find_exact_example : Search counted 0
find_exact_example = find_exact Reach-in_wait 0

missed_quiet : (j : ℕ) → (missed.pc j ≢ closing 7) × (missed.pc j ≢ signalling 7)
missed_quiet j = (λ h. ground arith, λ h. ground arith)

waiter_stranded_example : update missed.pc 0 (asleep 7) 0 ≡ asleep 7
waiter_stranded_example = waiter_stranded 0 7 Reach-missed refl refl missed_quiet refl stay

abbrev full : System
full = record boot { kernel = record doevent_init { next_event_id = 5001 } }

open_deadlocks_example : (false ≡ false) × (true ≡ true) × (full.pc 3 ≡ idle)
unfolding doevent_open
open_deadlocks_example =
    open_deadlocks {n = 4} full (some 7) 3 {r = false} {k = record full.kernel { list_lock = true }}
      refl (λ l b. refl) (omega arith) refl stay
