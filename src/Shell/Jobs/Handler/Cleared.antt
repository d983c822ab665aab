-- ===== src/Shell/Jobs/Handler/Cleared.antt =====
-- What a deletejob in child_handler of hw1/part_two.c leaves of the job list.
use cs.Base.{
  ℕ, ◌≡◌, refl, sym, ap, ◌∙◌, Bool, true, false, Option, none, some, get_elem?, set, length,
  Bool-cases, inl, inr, ◌⊎◌, length-set,
}
use cs.Base.Int.{ℤ, below_one}
use cs.Shell.Jobs.{Job, Shell, clearjob, first_job, has_pid, drop_job, deletejob, reap}
use cs.Shell.Jobs.Lookup.{get-cases, get-set-cases}

-- What deletejob leaves: the job list as it was, or one entry cleared.
pub data Cleared (s t : Shell) : Type 0 where
  kept : t.jobs ≡ s.jobs → Cleared s t
  cleared : (k : ℕ) (old : Job) → t.jobs ≡ set s.jobs k (clearjob old) → Cleared s t

drop_job-Cleared : (s : Shell) (place : Option ℕ) → Cleared s (drop_job s place).1
unfolding drop_job
drop_job-Cleared s none = kept refl
drop_job-Cleared s (some i) = elim (get-cases s.jobs i) [
  | inl e ↦ rw (drop_job, e) (kept refl)
  | inr (old, e) ↦ rw (drop_job, e) (cleared i old refl)
]

pub reap-Cleared : (b : Bool) (pid : ℤ) (s : Shell) → Cleared s (reap b pid s).1
unfolding reap deletejob
reap-Cleared false pid s = kept refl
reap-Cleared true pid s = elim (Bool-cases (below_one pid)) [
  | inl e ↦ rw e (kept refl)
  | inr e ↦ rw e (drop_job-Cleared s (first_job (has_pid pid) s.jobs))
]

-- Each entry after it was there before, or has no commands.
pub Cleared-get :
    {s t : Shell}
    → Cleared s t
    → (i : ℕ) (job : Job) → get_elem? t.jobs i ≡ some job
    → (get_elem? s.jobs i ≡ some job) ⊎ (job.pid_q_length ≡ 0)
unfolding clearjob
Cleared-get (kept e) i job there = inl (ap (λ l. get_elem? l i) (sym e) ∙ there)
Cleared-get {s = s} (cleared k old e) i job there =
    elim (get-set-cases s.jobs k i (clearjob old) job (ap (λ l. get_elem? l i) (sym e) ∙ there)) [
      | inl p ↦ inr (ap (λ j. j.pid_q_length) p.1)
      | inr p ↦ inl p
    ]

pub Cleared-length : {s t : Shell} → Cleared s t → length t.jobs ≡ length s.jobs
Cleared-length (kept e) = ap length e
Cleared-length {s = s} (cleared k old e) = ap length e ∙ length-set s.jobs k (clearjob old)
