-- ===== src/Shell/Main/Starts.antt =====
-- What eval_cmd and addjob make of the commands of a line, in main of hw1/part_two.c.
use cs.Base.{
  ℕ, suc, ◌<◌, ◌≤◌, ◌≡◌, refl, ap, ◌∙◌, Bool, some, List, [], arith, All-get_elem?, set, get_or,
  length, if◌then◌else◌,
}
use cs.Base.Int.{ℤ, pos}
use cs.Base.Outcome.{ok}
use cs.Shell.Jobs.{JobState, Job, Shell, first_job, is_free, new_job}
use cs.Shell.Jobs.Lookup.{first_job-get}
use cs.Shell.Jobs.Add.{filled, addjob-filled}
use cs.Shell.Pipeline.{Table, Started, eval_cmd}
use cs.Shell.Pipeline.Descriptors.{IsFresh}
use cs.Shell.Pipeline.Ends.{Chain, eval_cmd-Chain}
use cs.Shell.Main.{World, Session, starts, record_pids, pid_of, waited, start_line}
use cs.Shell.Main.Pids.{
  first_values, length-record_pids, record_pids-get, waited_lem, waited-copy_first,
}
use cs.Shell.Main.Ready.{IsReadyJob}
use cs.Shell.Main.Reach.{IsOrderly}

-- `cmdline` is started: what `n` commands run and are connected to, what is waited for, and the job that
-- is put at `place`.
pub record IsStarted (w : World) (pids : ℕ → ℕ) (in_background : Bool) (cmdline : List ℕ)
    (n place : ℕ) (table : Table) (jobs : List Job) (cmds : List (List ℕ)) (t : Session)
    (children : List Started) (awaited : List ℤ) : Type 0 where
  pub connected : Chain w.usable cmds n table 0 children
  pub awaits : awaited ≡ (if in_background then [] else first_values n (λ j. pos (suc (pids j))))
  pub job : Job
  pub listed : t.shell.jobs ≡ set jobs place job
  pub pid : job.pid ≡ pos (suc (pids 0))
  pub state : job.state ≡ (if in_background then JobState.bg else JobState.fg)
  pub text : job.cmdline ≡ cmdline
  pub size : job.pid_q_length ≡ n
  pub queue : waited n job.pid_q ≡ first_values n (λ j. pos (suc (pids j)))

pub start_line-IsStarted :
    (w : World) (pids : ℕ → ℕ) (in_background : Bool) (cmdline : List ℕ) (place : ℕ) (s : Session)
    → IsOrderly s
    → 0 < s.shell.num_cmds
    → IsFresh w.pipe
    → w.fork ≡ (λ j. some (suc (pids j)))
    → first_job is_free s.shell.jobs ≡ some place
    → (t : Session) × (children : List Started) × (awaited : List ℤ) × (start_line w in_background
          cmdline s
        ≡ ok (t, starts children awaited))
      × IsStarted w pids in_background cmdline s.shell.num_cmds place s.table s.shell.jobs s.cmds t
          children awaited
unfolding start_line
start_line-IsStarted w pids in_background cmdline place s g some_cmds fresh forked free =
    let n = s.shell.num_cmds in
    let child_pids = record_pids w.fork n 0 s.shell.child_pids in
    let state = if in_background then JobState.bg else JobState.fg in
    let before : Shell = record s.shell { child_pids = child_pids } in
    let (old, there, _) = first_job-get is_free s.shell.jobs place free in
    let (table, children, evaluated, chain, _) =
      eval_cmd-Chain w.usable w.pipe (λ j. suc (pids j)) s.cmds n s.table fresh in
    let each : (j : ℕ) → j < n → get_or child_pids j (pos 0) ≡ pos (suc (pids j)) = λ j lt.
      record_pids-get w.fork n 0 j s.shell.child_pids (omega (arith, g.ready.pids, g.ready.few))
        (omega arith) (omega (arith, lt))
      ∙ ap (λ f. pid_of (f j)) forked in
    let first : get_or child_pids 0 (pos 0) ≡ pos (suc (pids 0)) = each 0 some_cmds in
    let added = addjob-filled (pids 0) state cmdline before place old g.ready.few free there in
    let run : eval_cmd w.usable w.pipe w.fork s.cmds n s.table ≡ ok (table, children) =
      ap (λ f. eval_cmd w.usable w.pipe f s.cmds n s.table) forked ∙ evaluated in
    let sizes = length-record_pids w.fork n 0 s.shell.child_pids in
    let enough : n ≤ length child_pids = omega (arith, sizes, g.ready.pids, g.ready.few) in
    let all : waited n child_pids ≡ first_values n (λ j. pos (suc (pids j))) =
      waited_lem n child_pids (λ j. pos (suc (pids j))) enough each in
    let (queue_size, _, _) = All-get_elem? IsReadyJob s.shell.jobs place g.ready.entries there in
    (
      record s {
        shell = filled place old (pos (suc (pids 0))) state cmdline before;
        table = table;
      },
      children,
      if in_background then [] else waited n child_pids,
      rw (run, first, added) refl,
      record {
        connected = chain;
        awaits = ap (λ l. if in_background then [] else l) all;
        job = new_job (pos (suc (pids 0))) state cmdline before old;
        listed = refl;
        pid = refl;
        state = refl;
        text = refl;
        size = refl;
        queue =
            waited-copy_first n child_pids old.pid_q enough (omega (arith, queue_size, g.ready.few))
            ∙ all;
      },
    )
