-- ===== src/Kersync/Keeps/Always.antt =====
-- The list of hw3/group/TURNED_IN_Qiyuan_Qiguang/kersync/kersync.c in every execution.
use cs.Base.{ℕ, inl, inr, refl, false, arith, Bool-cases}
use cs.Base.Int.{pos, ◌+ℤ◌, ◌-ℤ◌}
use cs.Kersync.Calls.{
  asleep, System, Step, open_event, enter, count, enter_close, check, sleep_on, leave, signal, drop,
  close, boot, Reach, here, next,
}
use cs.Kersync.Links.{Links}
use cs.Kersync.Lookup.{enter-Entered, close-Unlinked}
use cs.Kersync.Effects.{
  count_up-Rewritten, count_down-Rewritten, wait_leave-Locked, sig_body-Locked, wait_check-Checked,
  close_body-Closed,
}
use cs.Kersync.Keeps.{
  Links-go, Links-wake_up, Links-open, Links-enter, Links-count, Links-enter_close, Links-lock,
  Links-check, Links-drop, Links-close,
}

Step-Links : {n : ℕ} {s t : System} → Step n s t → Links s.kernel s.pc → Links t.kernel t.pc
Step-Links (open_event i place {r} {k} lt at free fresh run e) links =
    rw e (Links-open links place r k free fresh run)
Step-Links {s = s} (enter i signals id {p} {k} lt at free run e) links =
    rw e (Links-enter links i signals p k free at (enter-Entered id s.kernel k p run))
Step-Links {s = s} (count i a signals c {k} at run e) links = rw e (
    Links-count links i a signals c (λ x. record x { count = c +ℤ pos 1 }) k at
      (count_up-Rewritten a c s.kernel k run))
Step-Links {s = s} (enter_close i id {p} {k} lt at free run e) links =
    rw e (Links-enter_close links i p k free at (close-Unlinked id s.kernel k p run))
Step-Links {s = s} (check i a {o} {k} at free run e) links =
    rw e (Links-check links i a o k (wait_check-Checked a o s.kernel k run))
Step-Links {s = s} (sleep_on i a at e) links =
    rw e (Links-go links s.kernel i (asleep a) (λ b. refl) refl refl (λ b. refl) (λ b h. cc))
Step-Links {s = s} (leave i a {c} {k} at free run e) links =
    rw e (Links-lock links i a c k (wait_leave-Locked a c s.kernel k run))
Step-Links {s = s} (signal i a {r} {c} {k} at free run e) links =
    let done = sig_body-Locked a r c s.kernel k run in
    elim (Bool-cases r) [
      | inl woke ↦ rw (e, woke) (Links-lock (Links-wake_up links a) i a c k done)
      | inr quiet ↦ rw (e, quiet) (Links-lock links i a c k done)
    ]
Step-Links {s = s} (drop i a c {k} at run e) links = rw e (
    Links-drop links i a (λ x. record x { count = c -ℤ pos 1; e_lock = false }) k
      (count_down-Rewritten a c s.kernel k run))
Step-Links {s = s} (close i a {r} {k} at free run e) links = rw e (
    Links-close (Links-wake_up links a) i a k (ground arith) (close_body-Closed a r s.kernel k run))

Links-boot : Links boot.kernel boot.pc
Links-boot = record {
  listed = λ a h. cc;
  distinct = tt;
  live = λ i a h. cc;
  unlisted = λ i a h. cc;
  closers = λ i j a h h'. cc;
  locked = λ i a h. cc;
  counted_in = λ i a h. cc;
  counters = λ i j a b h h'. cc;
}

pub Reach-Links : {n : ℕ} {s : System} → Reach n s → Links s.kernel s.pc
Reach-Links here = Links-boot
Reach-Links (next r st) = Step-Links st (Reach-Links r)
