-- ===== src/Kersync/Limit.antt =====
-- The limit on events of hw3/group/TURNED_IN_Qiyuan_Qiguang/kersync/kersync.c.
use cs.Base.{ℕ, ◌<◌, ◌≡◌, Bool, true, false, Option, arith}
use cs.Base.Outcome.{ok}
use cs.Kersync.{
  Kernel, max_event_id, doevent_open, lock_event, count_down, wait_check, wait_leave, sig_body,
  close_body,
}
use cs.Kersync.Calls.{
  Pc, idle, System, Step, open_event, enter, count, enter_close, check, sleep_on, leave, signal,
  drop, close, Steps, stay, more,
}
use cs.Kersync.Links.{counts}

-- With the list lock left held no idle process gets into a call.
record IsLocked (before : ℕ → Pc) (s : System) : Type 0 where
  locked : s.kernel.list_lock ≡ true
  uncounted : (j b : ℕ) → counts b (s.pc j) ≡ false
  idles : (j : ℕ) → before j ≡ idle → s.pc j ≡ idle

Step-IsLocked :
    {n : ℕ} {s t : System} (before : ℕ → Pc) → Step n s t → IsLocked before s → IsLocked before t
unfolding lock_event count_down wait_check wait_leave sig_body close_body
Step-IsLocked before (open_event i place lt at free fresh run e) g =
    absurd (ground (arith, g.locked))
Step-IsLocked before (count i b signals c at run e) g = absurd (ground (arith, g.uncounted i b))
Step-IsLocked before (enter i signals id lt at free run e) g = absurd (ground (arith, g.locked))
Step-IsLocked before (enter_close i id lt at free run e) g = absurd (ground (arith, g.locked))
Step-IsLocked before (check i b at free run e) g = rw e (record {
  locked = ground (arith, g.locked);
  uncounted = λ j d. ground (arith, g.uncounted j d);
  idles = λ j h. ground (arith, g.idles j h);
})
Step-IsLocked before (sleep_on i b at e) g = rw e (record {
  locked = ground (arith, g.locked);
  uncounted = λ j d. ground (arith, g.uncounted j d);
  idles = λ j h. ground (arith, g.idles j h);
})
Step-IsLocked before (leave i b at free run e) g = rw e (record {
  locked = ground (arith, g.locked);
  uncounted = λ j d. ground (arith, g.uncounted j d);
  idles = λ j h. ground (arith, g.idles j h);
})
Step-IsLocked before (signal i b at free run e) g = rw e (record {
  locked = ground (arith, g.locked);
  uncounted = λ j d. ground (arith, g.uncounted j d);
  idles = λ j h. ground (arith, g.idles j h);
})
Step-IsLocked before (drop i b c at run e) g = rw e (record {
  locked = ground (arith, g.locked);
  uncounted = λ j d. ground (arith, g.uncounted j d);
  idles = λ j h. ground (arith, g.idles j h);
})
Step-IsLocked before (close i b at free run e) g = rw e (record {
  locked = ground (arith, g.locked);
  uncounted = λ j d. ground (arith, g.uncounted j d);
  idles = λ j h. ground (arith, g.idles j h);
})

Steps-IsLocked :
    {n : ℕ} {s t : System} (before : ℕ → Pc) → Steps n s t → IsLocked before s → IsLocked before t
Steps-IsLocked before stay g = g
Steps-IsLocked before (more r st) g = Step-IsLocked before st (Steps-IsLocked before r g)

-- Once 5001 events have been opened, the next open, while no other call has the list lock in the midst of
-- its `count++`, returns -1 with the list lock held: in every state that follows it is held, and every
-- process that was in no call stays out.
pub open_deadlocks :
    {n : ℕ} (s : System) {t : System} (place : Option ℕ) (j : ℕ) {r : Bool} {k : Kernel}
    → s.pc j ≡ idle
    → ((l b : ℕ) → counts b (s.pc l) ≡ false)
    → max_event_id < s.kernel.next_event_id
    → doevent_open place s.kernel ≡ ok (r, k)
    → Steps n (record s { kernel = k }) t
    → (r ≡ false) × (t.kernel.list_lock ≡ true) × (t.pc j ≡ idle)
unfolding doevent_open
open_deadlocks s place j {r} {k} out bare full run later =
    let start : IsLocked s.pc (record s { kernel = k }) = record {
      locked = ground arith;
      uncounted = bare;
      idles = λ l h. h;
    } in
    let end = Steps-IsLocked s.pc later start in (ground arith, end.locked, end.idles j out)
