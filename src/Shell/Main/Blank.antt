-- ===== src/Shell/Main/Blank.antt =====
-- A line without commands in main of hw1/part_two.c, which main takes for the line before.
use cs.Base.{
  ℕ, suc, ◌≡◌, refl, ap, ◌∙◌, Bool, true, false, some, List, [], arith, set, get_or, length,
  if◌then◌else◌,
}
use cs.Base.Int.{ℤ, pos}
use cs.Base.Outcome.{ok}
use cs.Shell.Jobs.{JobState, Job, Shell, first_job, is_free, new_job}
use cs.Shell.Jobs.Lookup.{first_job-get}
use cs.Shell.Jobs.Add.{filled, addjob-filled}
use cs.Shell.Line.{is_pipe_bg}
use cs.Shell.Parse.{command_delim, parse_user_input}
use cs.Shell.Parse.Tokens.{joined, tokens, IsWord, AreWords}
use cs.Shell.Parse.Commands.{put_first}
use cs.Shell.Pipeline.{eval_cmd}
use cs.Shell.Main.{World, Session, starts, start_line, run_line, unmarked}
use cs.Shell.Main.Reach.{IsOrderly}
use cs.Shell.Main.Runs.{is_builtin, run_command-start, parse_few}

no_waits : (in_background : Bool) → ◌≡◌ {A = List ℤ} (if in_background then [] else []) []
no_waits true = refl
no_waits false = refl

-- After a line whose first command is none of the shell's own and whose first child is `suc p`, a line without
-- commands starts nothing. In an orderly session with a free entry it adds a job with the pid of that child
-- again, whose number of commands is 0.
pub run_line-adds_again :
    (w : World) (line : List ℕ) (words : List (List ℕ × ℕ)) (tail : List ℕ) (p place : ℕ)
    (s : Session)
    → IsOrderly s
    → unmarked line ≡ joined words tail
    → AreWords command_delim words
    → IsWord command_delim tail
    → tokens words tail ≡ []
    → is_builtin (get_or s.cmds 0 []) ≡ false
    → get_or s.shell.child_pids 0 (pos 0) ≡ pos (suc p)
    → first_job is_free s.shell.jobs ≡ some place
    → (t : Session) × (job : Job) × (run_line w line s ≡ ok (t, starts [] []))
      × (t.shell.jobs ≡ set s.shell.jobs place job)
      × (job.pid ≡ pos (suc p))
      × (job.pid_q_length ≡ 0)
unfolding run_line start_line eval_cmd
run_line-adds_again w line words tail p place s g text are is no_words other first free =
    let (old, there, _) = first_job-get is_free s.shell.jobs place free in
    let state = if is_pipe_bg line then JobState.bg else JobState.fg in
    let before : Shell = record s.shell { num_cmds = 0 } in
    let added = addjob-filled p state (unmarked line) before place old (omega arith) free there in
    let parse : parse_user_input (unmarked line) s.cmds ≡ ok (s.cmds, 0) =
      ap (λ l. parse_user_input l s.cmds) text
      ∙ parse_few words tail s.cmds are is g.commands (omega (arith, ap length no_words))
      ∙ ap (λ ts. ok (put_first ts s.cmds, length ts)) no_words in
    let start =
      run_command-start w (is_pipe_bg line) (unmarked line) (get_or s.cmds 0 [])
        (record s { shell = before }) other in
    let after = record s { shell = filled place old (pos (suc p)) state (unmarked line) before } in
    (
      after,
      new_job (pos (suc p)) state (unmarked line) before old,
      rw parse (
          start
          ∙ rw (first, added) (ap (λ l. ok (after, starts [] l)) (no_waits (is_pipe_bg line)))),
      refl,
      refl,
      refl,
    )
