-- ===== src/Shell/Main/Ready.antt =====
-- What every round of hw1/part_two.c keeps of the job list: its arrays have their sizes, and an entry with
-- commands has the pid of a process.
use cs.Base.{
  ℕ, zero, suc, ◌+◌, ◌≤◌, ◌≡◌, ◌≢◌, refl, ap, ◌∙◌, Bool, true, false, Option, none, some, List, [],
  ◌∷◌, arith, get_elem?, length, All, All-set, All-get_elem?, Bool-cases, Option-cases, inl, inr,
  length-set, ltb,
}
use cs.Base.Int.{ℤ, below_one}
use cs.Base.Outcome.{Outcome, ok, fault, deref, Ends, Ends-bind, Ends-bind_any, Ends-deref}
use cs.Shell.Jobs.{
  max_jobs, max_cmd_num, JobState, Job, Shell, clear_first, clearjob, first_job, is_free, has_pid,
  copy_first, new_job, fill_job, addjob, drop_job, deletejob, reap, waitfg_loop, waitfg, getjobjid,
  fg_command,
}
use cs.Shell.Jobs.Lookup.{get-cases}
use cs.Shell.Jobs.Handler.{
  pid_at, with_kills, handler_entry, handler_step, handler_loop, child_handler,
}
use cs.Shell.Jobs.Handler.Harmless.{IsSound}

abbrev pub IsReadyJob : Job → Type 0
IsReadyJob job =
    (length job.pid_q ≡ max_cmd_num)
    × (job.pid_q_length ≤ max_cmd_num)
    × (job.pid_q_length ≢ 0 → below_one job.pid ≡ false)

pub record IsReady (s : Shell) : Type 0 where
  pub room : length s.jobs ≡ max_jobs
  pub entries : All IsReadyJob s.jobs
  pub pids : length s.child_pids ≡ max_cmd_num
  pub few : s.num_cmds ≤ max_cmd_num

pub IsReady-IsSound : {s : Shell} → IsReady s → IsSound s
IsReady-IsSound {s} g = record {
  room = omega (arith, g.room);
  owned = λ i job there. (All-get_elem? IsReadyJob s.jobs i g.entries there).2;
  held = λ i job there.
      let (size, few, owned) = All-get_elem? IsReadyJob s.jobs i g.entries there in
      omega (arith, size, few);
}

length-clear_first : (n : ℕ) (q : List ℤ) → length (clear_first n q) ≡ length q
length-clear_first zero q = refl
length-clear_first (suc n) [] = refl
length-clear_first (suc n) (p ∷ q) = ap suc (length-clear_first n q)

length-copy_first : (n : ℕ) (from to : List ℤ) → length (copy_first n from to) ≡ length to
length-copy_first zero from to = refl
length-copy_first (suc n) [] [] = refl
length-copy_first (suc n) [] (q ∷ to) = refl
length-copy_first (suc n) (p ∷ from) [] = refl
length-copy_first (suc n) (p ∷ from) (q ∷ to) = ap suc (length-copy_first n from to)

clearjob-IsReadyJob : (job : Job) → IsReadyJob job → IsReadyJob (clearjob job)
unfolding clearjob
clearjob-IsReadyJob job (size, few, owned) =
    (length-clear_first job.pid_q_length job.pid_q ∙ size, omega arith, λ ne. absurd (ne refl))

drop_job-IsReady : (s : Shell) (place : Option ℕ) → IsReady s → IsReady (drop_job s place).1
unfolding drop_job
drop_job-IsReady s none g = g
drop_job-IsReady s (some i) g = elim (get-cases s.jobs i) [
  | inl e ↦ rw (drop_job, e) g
  | inr (old, e) ↦
      rw (drop_job, e)
        (record {
          room = length-set s.jobs i (clearjob old) ∙ g.room;
          entries =
              All-set IsReadyJob s.jobs i (clearjob old) g.entries
                (clearjob-IsReadyJob old (All-get_elem? IsReadyJob s.jobs i g.entries e));
          pids = g.pids;
          few = g.few;
        })
]

pub reap-IsReady : (exited : Bool) (pid : ℤ) (s : Shell) → IsReady s → IsReady (reap exited pid s).1
unfolding reap deletejob
reap-IsReady false pid s g = g
reap-IsReady true pid s g = elim (Bool-cases (below_one pid)) [
  | inl e ↦ rw e g
  | inr e ↦ rw e (drop_job-IsReady s (first_job (has_pid pid) s.jobs) g)
]

fill_job-IsReady :
    (pid : ℤ) (state : JobState) (cmdline : List ℕ) (s : Shell) (place : Option ℕ)
    → below_one pid ≡ false
    → IsReady s
    → Ends (λ r. IsReady r.1) (fill_job pid state cmdline s place)
unfolding fill_job
fill_job-IsReady pid state cmdline s none up g = g
fill_job-IsReady pid state cmdline s (some i) up g =
    Ends-bind IsReadyJob (λ r. IsReady r.1) (deref (get_elem? s.jobs i)) _
      (Ends-deref IsReadyJob (get_elem? s.jobs i)
        (λ job there. All-get_elem? IsReadyJob s.jobs i g.entries there))
      (λ job ready. elim (Bool-cases (ltb max_cmd_num s.num_cmds)) [
        | inl e ↦ rw e tt
        | inr e ↦ rw e (record {
          room = length-set s.jobs i (new_job pid state cmdline s job) ∙ g.room;
          entries = All-set IsReadyJob s.jobs i (new_job pid state cmdline s job) g.entries (
            length-copy_first s.num_cmds s.child_pids job.pid_q ∙ ready.0,
            ground (arith, e),
            λ ne. up,
          );
          pids = g.pids;
          few = g.few;
        })
      ])

pub addjob-IsReady :
    (pid : ℤ) (state : JobState) (cmdline : List ℕ) (s : Shell)
    → IsReady s
    → Ends (λ r. IsReady r.1) (addjob pid state cmdline s)
unfolding addjob
addjob-IsReady pid state cmdline s g = elim (Bool-cases (below_one pid)) [
  | inl e ↦ rw e g
  | inr e ↦ rw e (fill_job-IsReady pid state cmdline s (first_job is_free s.jobs) e g)
]

-- The list that a call leaves beside its result.
abbrev pub AreReady : List ℤ × Shell → Type 0
AreReady r = IsReady r.1

waitfg_loop-IsReady :
    (exited : ℕ → ℤ → Bool) (place n i : ℕ) (s : Shell)
    → IsReady s
    → Ends AreReady (waitfg_loop exited place n i s)
unfolding waitfg_loop
waitfg_loop-IsReady exited place zero i s g = g
waitfg_loop-IsReady exited place (suc n) i s g =
    Ends-bind_any AreReady (deref (get_elem? s.jobs place)) _ (λ job.
      Ends-bind_any AreReady (deref (get_elem? job.pid_q i)) _ (λ pid.
        Ends-bind AreReady AreReady
          (waitfg_loop exited place n (i + 1) (reap (exited i pid) pid s).1) _
          (waitfg_loop-IsReady exited place n (i + 1) (reap (exited i pid) pid s).1
            (reap-IsReady (exited i pid) pid s g))
          (λ r ready. ready)))

pub fg_command-IsReady :
    (exited : ℕ → ℤ → Bool) (jid : ℕ) (s : Shell)
    → IsReady s
    → Ends AreReady (fg_command exited jid s)
unfolding fg_command waitfg
fg_command-IsReady exited jid s g =
    Ends-bind_any AreReady (deref (getjobjid jid s.jobs)) _ (λ place.
      Ends-bind_any AreReady (deref (get_elem? s.jobs place)) _
        (λ job. waitfg_loop-IsReady exited place job.pid_q_length 0 s g))

with_kills-IsReady :
    (killed : List ℤ) (o : Outcome (List ℤ × Shell))
    → Ends AreReady o
    → Ends AreReady (with_kills killed o)
with_kills-IsReady killed (ok r) h = h
with_kills-IsReady killed fault h = tt

handler_entry-IsReady :
    (exited : ℕ → ℤ → Bool) (i n j : ℕ) (s : Shell)
    → IsReady s
    → Ends AreReady (handler_entry exited i n j s)
unfolding handler_entry
handler_entry-IsReady exited i zero j s g = g
handler_entry-IsReady exited i (suc n) j s g =
    Ends-bind_any AreReady (deref (get_elem? s.jobs i)) _ (λ job.
      Ends-bind_any AreReady (pid_at j job) _ (λ p. elim (Option-cases p) [
        | inl e ↦ rw e g
        | inr (pid, e) ↦ rw e (
            with_kills-IsReady (reap (exited j pid) job.pid s).0 _ (
              handler_entry-IsReady exited i n (j + 1) (reap (exited j pid) job.pid s).1
                (reap-IsReady (exited j pid) job.pid s g)))
      ]))

handler_step-IsReady :
    (exited : ℕ → ℤ → Bool) (i : ℕ) (s : Shell)
    → IsReady s
    → Ends AreReady (handler_step exited i s)
unfolding handler_step
handler_step-IsReady exited i s g = Ends-bind_any AreReady (deref (get_elem? s.jobs i)) _ (λ job.
    elim (Bool-cases (is_free job)) [
      | inl e ↦ rw e g
      | inr e ↦ rw e (handler_entry-IsReady exited i job.pid_q_length 0 s g)
    ])

handler_loop-IsReady :
    (exited : ℕ → ℕ → ℤ → Bool) (n i : ℕ) (s : Shell)
    → IsReady s
    → Ends AreReady (handler_loop exited n i s)
unfolding handler_loop
handler_loop-IsReady exited zero i s g = g
handler_loop-IsReady exited (suc n) i s g =
    Ends-bind AreReady AreReady (handler_step (exited i) i s) _
      (handler_step-IsReady (exited i) i s g)
      (λ r ready.
        with_kills-IsReady r.0 (handler_loop exited n (i + 1) r.1)
          (handler_loop-IsReady exited n (i + 1) r.1 ready))

pub child_handler-IsReady :
    (exited : ℕ → ℕ → ℤ → Bool) (s : Shell) → IsReady s → Ends AreReady (child_handler exited s)
unfolding child_handler
child_handler-IsReady exited s g = handler_loop-IsReady exited max_jobs 0 s g
