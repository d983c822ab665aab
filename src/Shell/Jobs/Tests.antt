-- ===== src/Shell/Jobs/Tests.antt =====
-- Runs of the job list of hw1/part_two.c.
use cs.Shell.Jobs.Handler.{pid_at, handler_entry, handler_step, handler_loop, child_handler}
use cs.Shell.Jobs.Handler.Rounds.{handler_entry_enough}
use cs.Base.{
  ℕ, zero, suc, ◌≡◌, refl, ap, ◌+◌, true, false, some, [], ◌∷◌, arith, get_elem?, replicate,
}
use cs.Base.Int.{pos}
use cs.Base.Outcome.{ok}
use cs.Shell.Jobs.{
  max_jobs, Job, bg, Shell, clearjob, initjobs, maxjid_from, maxjid, first_job, fill_job, addjob,
  drop_job, deletejob, getjobpid, fgpid, listjobs, reap, waitfg_loop, waitfg, new_job,
}
use cs.Shell.Jobs.Add.{blank, filled, deletejob-addjob}
use cs.Shell.Jobs.Numbering.{IsNumbered, addjob-IsNumbered, deletejob-IsNumbered}

-- A shell that has started a pipe of two commands, with the pids 41 and 42.
abbrev start : Shell
start = record {
  jobs = replicate max_jobs blank;
  nextjid = 1;
  num_cmds = 2;
  child_pids = pos 41 ∷ pos 42 ∷ replicate 6 (pos 0);
}

abbrev pipe : Shell
pipe = filled 0 blank (pos 41) bg (108 ∷ []) start

initjobs-blank : initjobs (replicate max_jobs blank) ≡ replicate max_jobs blank
unfolding initjobs
initjobs-blank = refl

addjob-pipe : addjob (pos 41) bg (108 ∷ []) start ≡ ok (true, pipe)
unfolding addjob fill_job first_job
addjob-pipe = refl

listjobs-pipe : listjobs pipe.jobs ≡ (1, pos 41, bg, 108 ∷ []) ∷ []
unfolding listjobs
listjobs-pipe = refl

fgpid-pipe : fgpid pipe.jobs ≡ pos 0
unfolding fgpid first_job
fgpid-pipe = refl

deletejob-pipe : deletejob (pos 41) pipe ≡ (true, start)
unfolding deletejob drop_job first_job clearjob maxjid maxjid_from
deletejob-pipe = refl

waitfg-pipe : waitfg (λ _ _. true) (some 0) pipe ≡ ok (pos 41 ∷ pos 0 ∷ [], start)
unfolding waitfg waitfg_loop reap deletejob drop_job first_job clearjob maxjid maxjid_from
waitfg-pipe = refl

get-replicate_eq : (n i : ℕ) {a b : Job} → get_elem? (replicate n a) i ≡ some b → a ≡ b
get-replicate_eq zero i e = cc
get-replicate_eq (suc n) zero e = cc
get-replicate_eq (suc n) (suc i) e = get-replicate_eq n i e

start-IsNumbered : IsNumbered start
start-IsNumbered = record {
  below = λ i job there. ground (arith, ap (λ j. j.jid) (get-replicate_eq max_jobs i there));
  apart = λ i j a b at_i at_j same some_jid.
      absurd (some_jid (ground (arith, ap (λ j. j.jid) (get-replicate_eq max_jobs i at_i))));
}

pipe-IsNumbered : IsNumbered pipe
pipe-IsNumbered =
    addjob-IsNumbered (pos 41) bg (108 ∷ []) start pipe addjob-pipe (omega arith) start-IsNumbered

deletejob-addjob_example :
    (t : Shell) × (addjob (pos 41) bg (108 ∷ []) start ≡ ok (true, t))
    × (deletejob (pos 41) t ≡ (true, record start { nextjid = maxjid start.jobs + 1 }))
unfolding first_job getjobpid
deletejob-addjob_example = deletejob-addjob 40 bg (108 ∷ []) start 0 (omega arith) refl refl refl

deletejob-IsNumbered_example : IsNumbered start
deletejob-IsNumbered_example =
    deletejob-IsNumbered (pos 41) pipe start deletejob-pipe pipe-IsNumbered

abbrev first_of_many : Job
first_of_many = record blank { pid = pos 7; jid = 1; state = bg }

-- A shell whose ids have run up to 16, with two free entries.
abbrev many : Shell
many = record start { jobs = first_of_many ∷ blank ∷ blank ∷ []; nextjid = max_jobs }

abbrev more : Shell
more = filled 1 blank (pos 8) bg [] many

-- Both commands have ended: their job is taken off the list.
child_handler-pipe : child_handler (λ _ _ _. true) pipe ≡ ok (pos 41 ∷ [], start)
unfolding child_handler handler_loop handler_step handler_entry pid_at reap deletejob drop_job
    first_job clearjob maxjid maxjid_from
child_handler-pipe = refl

handler_entry_enough_example :
    handler_entry (λ _ _. false) 0 2 0 pipe ≡ handler_entry (λ _ _. false) 0 8 0 pipe
handler_entry_enough_example =
    handler_entry_enough (λ _ _. false) 0 2 8 0 pipe (new_job (pos 41) bg (108 ∷ []) start blank)
      refl (omega arith) (omega arith)
