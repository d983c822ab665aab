-- ===== src/Shell/Jobs/Handler.antt =====
-- child_handler of hw1/part_two.c, the handler of SIGCHLD. The inner loop reads `pid_q_length` anew
-- in each round; it has as many rounds as that length was at its start.
pub mod Cleared
pub mod Rounds
pub mod Harmless
use cs.Base.{
  ℕ, zero, suc, ◌+◌, ◌<◌, ◌≤◌, ◌≡◌, ◌≢◌, refl, sym, ap, ◌∙◌, Bool, true, false, Option, none, some,
  List, [], ◌∷◌, ◌++◌, arith, ltb, if◌then◌else◌, get_elem?, set, length, All, All-append,
  Bool-cases, inl, inr, ◌⊎◌, length-set,
}
use cs.Base.Int.{ℤ, pos, eq_ℤ, below_one}
use cs.Base.Outcome.{Outcome, ok, fault, ◌>>=◌, deref}
use cs.Shell.Jobs.{
  max_jobs, Job, Shell, clearjob, first_job, is_free, has_pid, drop_job, deletejob, reap,
}
use cs.Shell.Jobs.Lookup.{get-cases, get-total, get-set-cases}

-- `j<jobs[i].pid_q_length`, and then the pid at `j`
unfoldable pub pid_at : ℕ → Job → Outcome (Option ℤ)
pid_at j job =
    if ltb j job.pid_q_length then (do p ← deref (get_elem? job.pid_q j); ok (some p)) else ok none

abbrev pub with_kills : List ℤ → Outcome (List ℤ × Shell) → Outcome (List ℤ × Shell)
with_kills kills o = do (further, t) ← o; ok (kills ++ further, t)

-- The inner loop at the entry `i` from its command `j`. What waitpid reports in a round of a pid is an
-- argument.
unfoldable pub handler_entry : (ℕ → ℤ → Bool) → ℕ → ℕ → ℕ → Shell → Outcome (List ℤ × Shell)
unfolding reap pid_at
handler_entry exited i zero j s = ok ([], s)
handler_entry exited i (suc n) j s = do
  job ← deref (get_elem? s.jobs i)
  p ← pid_at j job
  elim p [
    | none ↦ ok ([], s)
    | some pid ↦
        with_kills (reap (exited j pid) job.pid s).0
          (handler_entry exited i n (j + 1) (reap (exited j pid) job.pid s).1)
  ]

-- `if(jobs[i].pid != 0)` and the inner loop
unfoldable pub handler_step : (ℕ → ℤ → Bool) → ℕ → Shell → Outcome (List ℤ × Shell)
unfolding handler_entry
handler_step exited i s = do
  job ← deref (get_elem? s.jobs i)
  (if is_free job then ok ([], s) else handler_entry exited i job.pid_q_length 0 s)

unfoldable pub handler_loop : (ℕ → ℕ → ℤ → Bool) → ℕ → ℕ → Shell → Outcome (List ℤ × Shell)
unfolding handler_step
handler_loop exited zero i s = ok ([], s)
handler_loop exited (suc n) i s = do
  (kills, t) ← handler_step (exited i) i s
  with_kills kills (handler_loop exited n (i + 1) t)

unfoldable pub child_handler : (ℕ → ℕ → ℤ → Bool) → Shell → Outcome (List ℤ × Shell)
unfolding handler_loop
child_handler exited s = handler_loop exited max_jobs 0 s
