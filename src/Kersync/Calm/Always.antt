-- ===== src/Kersync/Calm/Always.antt =====
-- The counts of hw3/group/TURNED_IN_Qiyuan_Qiguang/kersync/kersync.c in every execution in which the
-- changes of one count do not overlap.
use cs.Base.{ℕ, inl, inr, refl, arith, Bool-cases}
use cs.Kersync.Calls.{
  asleep, System, Step, open_event, enter, count, enter_close, check, sleep_on, leave, signal, drop,
  close, boot,
}
use cs.Kersync.Links.{Links}
use cs.Kersync.Lookup.{enter-Entered, close-Unlinked}
use cs.Kersync.Effects.{
  count_up-Rewritten, count_down-Rewritten, wait_leave-Locked, sig_body-Locked, wait_check-Checked,
  close_body-Closed,
}
use cs.Kersync.Keeps.{Links-wake_up}
use cs.Kersync.Keeps.Always.{Reach-Links}
use cs.Kersync.Calm.{
  Calm, CalmReach, CalmReach-Reach, here, next, Tally, below, Tally-go, Tally-wake_up,
}
use cs.Kersync.Calm.Tallies.{
  Tally-open, Tally-enter, Tally-enter_close, Tally-lock, Tally-check, Tally-count, Tally-drop,
  Tally-close,
}

Step-Tally :
    {n : ℕ} {s t : System}
    → Step n s t
    → Links s.kernel s.pc
    → Calm s.pc
    → Tally n s.kernel s.pc
    → Tally n t.kernel t.pc
Step-Tally (open_event i place {r} {k} lt at free fresh run e) links calm tally =
    rw e (Tally-open tally place r k fresh run)
Step-Tally {s = s} (enter i signals id {p} {k} lt at free run e) links calm tally =
    rw e (Tally-enter tally i signals p k lt at (enter-Entered id s.kernel k p run))
Step-Tally {s = s} (count i a signals c {k} at run e) links calm tally =
    rw e (Tally-count tally i a signals c k calm at (count_up-Rewritten a c s.kernel k run))
Step-Tally {s = s} (enter_close i id {p} {k} lt at free run e) links calm tally =
    rw e (Tally-enter_close tally i p k lt at links.listed (close-Unlinked id s.kernel k p run))
Step-Tally {s = s} (check i a {o} {k} at free run e) links calm tally =
    rw e (Tally-check tally i a o k at (wait_check-Checked a o s.kernel k run))
Step-Tally {s = s} (sleep_on i a at e) links calm tally = rw e (
    Tally-go tally s.kernel i (asleep a) (below tally i (ground arith)) (λ b. refl)
      (λ b. ground arith) (λ b h. ground (arith, tally.alive i b)) (λ b c d h. cc))
Step-Tally {s = s} (leave i a {c} {k} at free run e) links calm tally = rw e (
    Tally-lock tally i a c k (ground arith) (λ b. ground arith)
      (wait_leave-Locked a c s.kernel k run))
Step-Tally {s = s} (signal i a {r} {c} {k} at free run e) links calm tally =
    let done = sig_body-Locked a r c s.kernel k run in
    elim (Bool-cases r) [
      | inl woke ↦
          rw (e, woke)
            (Tally-lock (Tally-wake_up tally a) i a c k (ground arith) (λ b. ground arith) done)
      | inr quiet ↦ rw (e, quiet) (Tally-lock tally i a c k (ground arith) (λ b. ground arith) done)
    ]
Step-Tally {s = s} (drop i a c {k} at run e) links calm tally =
    rw e (Tally-drop tally i a c k calm at (count_down-Rewritten a c s.kernel k run))
Step-Tally {s = s} (close i a {r} {k} at free run e) links calm tally = rw e (
    Tally-close (Tally-wake_up tally a) i a k (Links-wake_up links a) (ground arith)
      (close_body-Closed a r s.kernel k run))

Tally-boot : (n : ℕ) → Tally n boot.kernel boot.pc
Tally-boot n = record {
  exact = λ a c h. cc;
  alive = λ i a h. cc;
  current = λ i a c d h h'. cc;
  bounded = λ i h. refl;
}

pub CalmReach-Tally : {n : ℕ} {s : System} → CalmReach n s → Tally n s.kernel s.pc
CalmReach-Tally {n} here = Tally-boot n
CalmReach-Tally (next r calm st) =
    Step-Tally st (Reach-Links (CalmReach-Reach r)) calm (CalmReach-Tally r)
