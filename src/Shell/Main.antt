-- ===== src/Shell/Main.antt =====
-- The loop of main in hw1/part_two.c: one line of input from its background mark to the job list. What
-- the kernel and the C library answer is a World; what the shell does to the outside is an Effect.
pub mod Ready
pub mod Reach
pub mod Pids
pub mod Starts
pub mod Runs
pub mod Blank
mod Tests
use cs.Base.{
  ℕ, zero, suc, ◌+◌, Bool, true, false, ◌&&◌, Option, none, some, List, [], ◌∷◌, ◌==◌,
  if◌then◌else◌, get_elem?, get_or, set,
}
use cs.Base.Int.{ℤ, pos, negsuc}
use cs.Base.Outcome.{Outcome, ok, ◌>>=◌, deref}
use cs.Base.Text.{starts_with}
use cs.Shell.Jobs.{JobState, Shell, addjob, listjobs, fg_command}
use cs.Shell.Line.{is_pipe_bg, delete_bg_character}
use cs.Shell.Parse.{parse_user_input, parse_cmds}
use cs.Shell.Pipeline.{Table, Started, eval_cmd}

-- What malloc gives, the descriptors of pipe, the pids of fork (`none` for -1), atoi, and what waitpid
-- reports in a round of waitfg.
pub record World : Type 0 where
  pub usable : ℕ → ℕ
  pub pipe : ℕ → ℕ × ℕ
  pub fork : ℕ → Option ℕ
  pub atoi : List ℕ → ℤ
  pub exited : ℕ → ℤ → Bool

-- The globals and the descriptors of the shell.
pub record Session : Type 0 where
  pub shell : Shell
  pub cmds : List (List ℕ)
  pub table : Table

pub data Effect : Type 0 where
  exits : Effect
  changes_directory : Option (List ℕ) → Effect
  kills : List ℤ → Effect
  does_nothing : Effect
  lists : List (ℕ × ℤ × JobState × List ℕ) → Effect
  starts : List Started → List ℤ → Effect

-- "exit", "cd", "fg", "bg" and "jobs"
abbrev pub exit_word : List ℕ
exit_word = 101 ∷ 120 ∷ 105 ∷ 116 ∷ []

abbrev pub cd_word : List ℕ
cd_word = 99 ∷ 100 ∷ []

abbrev pub fg_word : List ℕ
fg_word = 102 ∷ 103 ∷ []

abbrev pub bg_word : List ℕ
bg_word = 98 ∷ 103 ∷ []

abbrev pub jobs_word : List ℕ
jobs_word = 106 ∷ 111 ∷ 98 ∷ 115 ∷ []

-- `parse_cmds(cmds[0],name,arg_v); chdir(arg_v[1]);` where a missing argument is NULL.
unfoldable pub cd_line : World → Session → Outcome (Session × Effect)
cd_line w s = do
  (name, args) ← parse_cmds w.usable (get_or s.cmds 0 [])
  ok (s, changes_directory (get_elem? args 1))

-- A number below 1 is no job id.
abbrev pub jid_of : ℤ → ℕ
jid_of (pos jid) = jid
jid_of (negsuc n) = 0

unfoldable pub fg_line : World → Session → Outcome (Session × Effect)
fg_line w s = do
  (name, args) ← parse_cmds w.usable (get_or s.cmds 0 [])
  arg ← deref (get_elem? args 1)
  (killed, shell) ← fg_command w.exited (jid_of (w.atoi arg)) s.shell
  ok (record s { shell = shell }, kills killed)

-- `child_pids[i] = pid;` in the rounds of eval_cmd
abbrev pub pid_of : Option ℕ → ℤ
pid_of none = negsuc 0
pid_of (some pid) = pos pid

unfoldable pub record_pids : (ℕ → Option ℕ) → ℕ → ℕ → List ℤ → List ℤ
record_pids fork zero i pids = pids
record_pids fork (suc rounds) i pids =
    record_pids fork rounds (i + 1) (set pids i (pid_of (fork i)))

-- `for(i=0;i<num_cmds;i++) waitpid(child_pids[i],…)`
unfoldable pub waited : ℕ → List ℤ → List ℤ
waited zero pids = []
waited (suc n) [] = []
waited (suc n) (pid ∷ pids) = pid ∷ waited n pids

-- What follows a line of other commands: eval_cmd, addjob, and the waits of a foreground job.
unfoldable pub start_line : World → Bool → List ℕ → Session → Outcome (Session × Effect)
unfolding record_pids waited
start_line w in_background cmdline s = do
  (table, children) ← eval_cmd w.usable w.pipe w.fork s.cmds s.shell.num_cmds s.table
  let child_pids = record_pids w.fork s.shell.num_cmds 0 s.shell.child_pids
  (added, shell) ←
      addjob (get_or child_pids 0 (pos 0)) (if in_background then JobState.bg else JobState.fg)
        cmdline (record s.shell { child_pids = child_pids })
  ok (
    record s { shell = shell; table = table },
    starts children (if in_background then [] else waited s.shell.num_cmds child_pids),
  )

-- The tests on cmds[0].
unfoldable pub run_command : World → Bool → List ℕ → List ℕ → Session → Outcome (Session × Effect)
run_command w in_background cmdline cmd s =
    if starts_with exit_word cmd
    then ok (s, exits)
    else if starts_with cd_word cmd
    then cd_line w s
    else if starts_with fg_word cmd
    then fg_line w s
    else if starts_with bg_word cmd
    then ok (s, does_nothing)
    else if starts_with jobs_word cmd
    then ok (s, lists (listjobs s.shell.jobs))
    else start_line w in_background cmdline s

-- The line as the parser is given it.
abbrev pub unmarked : List ℕ → List ℕ
unmarked line = if is_pipe_bg line then delete_bg_character line else line

-- A round of the loop, with the line that fgets read.
unfoldable pub run_line : World → List ℕ → Session → Outcome (Session × Effect)
unfolding run_command
run_line w line s = do
  (cmds, count) ← parse_user_input (unmarked line) s.cmds
  run_command w (is_pipe_bg line) (unmarked line) (get_or cmds 0 [])
      (record s { cmds = cmds; shell = record s.shell { num_cmds = count } })
