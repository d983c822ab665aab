-- ===== src/Shell/Jobs/Reap.antt =====
-- waitfg and the `fg` command of hw1/part_two.c.
use cs.Base.{
  ℕ, ◌≡◌, refl, Bool, false, some, get_elem?, replicate, All, ltb, ◌==◌, Bool-cases, inl, inr,
}
use cs.Base.Int.{ℤ, pos}
use cs.Base.Outcome.{fault}
use cs.Shell.Jobs.{max_cmd_num, Job, Shell, getjobjid, waitfg, fg_command}
use cs.Shell.Jobs.Lookup.{none-first_job}

-- A job list that has an entry at `place` whose pids are all 0.
record IsCleared (place : ℕ) (s : Shell) : Type 0 where
  job : Job
  there : get_elem? s.jobs place ≡ some job
  zeros : job.pid_q ≡ replicate max_cmd_num (pos 0)

-- `fg` with a job id that no job has follows a NULL pointer.
pub fg_command_fault :
    (exited : ℕ → ℤ → Bool) (jid : ℕ) (s : Shell)
    → All (λ job. (job.jid == jid) ≡ false) s.jobs
    → fg_command exited jid s ≡ fault
unfolding fg_command waitfg getjobjid
fg_command_fault exited jid s absent =
    rw (none-first_job (λ job. job.jid == jid) s.jobs absent)
      (elim (Bool-cases (ltb jid 1)) [ inl e ↦ rw e refl | inr e ↦ rw e refl ])
