-- ===== src/Shell/Main/Reach.antt =====
-- The sessions that the shell of hw1/part_two.c can come to, by lines of input and by SIGCHLD between them.
use cs.Base.{
  ℕ, zero, suc, ◌+◌, ◌≤◌, ◌≡◌, refl, ◌∙◌, Bool, true, false, List, [], arith, All-replicate,
  get_elem?, set, replicate, length, get_or, All, Bool-cases, Option-cases, inl, inr, length-set,
  if◌then◌else◌, ltb,
}
use cs.Base.Int.{ℤ, pos, below_one}
use cs.Base.Text.{starts_with}
use cs.Base.Outcome.{Outcome, ok, deref, Ends, Ends-bind, Ends-bind_any, Ends-ok}
use cs.Shell.Jobs.{max_jobs, max_cmd_num, JobState, Shell, addjob, fg_command}
use cs.Shell.Jobs.Add.{blank}
use cs.Shell.Jobs.Handler.{child_handler}
use cs.Shell.Jobs.Handler.Harmless.{child_handler_lem}
use cs.Shell.Line.{is_pipe_bg}
use cs.Shell.Parse.{strtok_r, command_delim, parse_loop, parse_user_input, parse_cmds}
use cs.Shell.Pipeline.{Table, eval_cmd}
use cs.Shell.Main.{
  World, Session, Effect, cd_line, fg_line, record_pids, start_line, run_command, run_line,
  unmarked, jid_of, exit_word, cd_word, fg_word, bg_word, jobs_word,
}
use cs.Shell.Main.Pids.{length-record_pids}
use cs.Shell.Main.Ready.{
  IsReadyJob, IsReady, IsReady-IsSound, AreReady, addjob-IsReady, fg_command-IsReady,
  child_handler-IsReady,
}

-- The arrays of the shell have their sizes.
pub record IsOrderly (s : Session) : Type 0 where
  pub ready : IsReady s.shell
  pub commands : length s.cmds ≡ max_cmd_num

abbrev AreCommands : List (List ℕ) × ℕ → Type 0
AreCommands r = (length r.0 ≡ max_cmd_num) × (r.1 ≤ max_cmd_num)

parse_loop-AreCommands :
    (fuel : ℕ) (ptr : List ℕ) (cmds : List (List ℕ)) (count : ℕ)
    → length cmds ≡ max_cmd_num
    → count ≤ max_cmd_num
    → Ends AreCommands (parse_loop fuel ptr cmds count)
unfolding parse_loop
parse_loop-AreCommands zero ptr cmds count size few = tt
parse_loop-AreCommands (suc fuel) ptr cmds count size few =
    elim (Option-cases (strtok_r command_delim ptr)) [
      | inl e ↦ rw e (size, few)
      | inr (t, e) ↦ elim (Bool-cases (ltb count max_cmd_num)) [
        | inl more ↦
            rw (e, more)
              (parse_loop-AreCommands fuel t.1 (set cmds count t.0) (count + 1)
                (length-set cmds count t.0 ∙ size) (ground (arith, more)))
        | inr full ↦ rw (e, full) tt
      ]
    ]

if-Ends :
    (b : Bool) (P : Session × Effect → Type 0) (x y : Outcome (Session × Effect))
    → Ends P x
    → Ends P y
    → Ends P (if b then x else y)
if-Ends true P x y h k = h
if-Ends false P x y h k = k

-- What a command leaves beside its effect.
abbrev AreOrderly : Session × Effect → Type 0
AreOrderly r = IsOrderly r.0

cd_line-IsOrderly : (w : World) (s : Session) → IsOrderly s → Ends AreOrderly (cd_line w s)
unfolding cd_line
cd_line-IsOrderly w s g =
    Ends-bind_any AreOrderly (parse_cmds w.usable (get_or s.cmds 0 [])) _ (λ parsed. g)

fg_line-IsOrderly : (w : World) (s : Session) → IsOrderly s → Ends AreOrderly (fg_line w s)
unfolding fg_line
fg_line-IsOrderly w s g =
    Ends-bind_any AreOrderly (parse_cmds w.usable (get_or s.cmds 0 [])) _ (λ parsed.
      Ends-bind_any AreOrderly (deref (get_elem? (parsed.1) 1)) _ (λ arg.
        Ends-bind AreReady AreOrderly (fg_command w.exited (jid_of (w.atoi arg)) s.shell) _
          (fg_command-IsReady w.exited (jid_of (w.atoi arg)) s.shell g.ready)
          (λ r ready. record { ready = ready; commands = g.commands })))

start_line-IsOrderly :
    (w : World) (in_background : Bool) (cmdline : List ℕ) (s : Session)
    → IsOrderly s
    → Ends AreOrderly (start_line w in_background cmdline s)
unfolding start_line
start_line-IsOrderly w in_background cmdline s g =
    let child_pids = record_pids w.fork s.shell.num_cmds 0 s.shell.child_pids in
    let state = if in_background then JobState.bg else JobState.fg in
    Ends-bind_any AreOrderly (eval_cmd w.usable w.pipe w.fork s.cmds s.shell.num_cmds s.table) _
      (λ evaluated.
        Ends-bind (λ r. IsReady r.1) AreOrderly
          (addjob (get_or child_pids 0 (pos 0)) state cmdline
            (record s.shell { child_pids = child_pids }))
          _
          (addjob-IsReady (get_or child_pids 0 (pos 0)) state cmdline
            (record s.shell { child_pids = child_pids })
            (record {
              room = g.ready.room;
              entries = g.ready.entries;
              pids = length-record_pids w.fork s.shell.num_cmds 0 s.shell.child_pids ∙ g.ready.pids;
              few = g.ready.few;
            }))
          (λ r ready. record { ready = ready; commands = g.commands }))

run_command-IsOrderly :
    (w : World) (in_background : Bool) (cmdline cmd : List ℕ) (s : Session)
    → IsOrderly s
    → Ends AreOrderly (run_command w in_background cmdline cmd s)
unfolding run_command
run_command-IsOrderly w in_background cmdline cmd s g =
    if-Ends (starts_with exit_word cmd) AreOrderly _ _ g (
      if-Ends (starts_with cd_word cmd) AreOrderly _ _ (cd_line-IsOrderly w s g) (
        if-Ends (starts_with fg_word cmd) AreOrderly _ _ (fg_line-IsOrderly w s g) (
          if-Ends (starts_with bg_word cmd) AreOrderly _ _ g (
            if-Ends (starts_with jobs_word cmd) AreOrderly _ _ g
              (start_line-IsOrderly w in_background cmdline s g)))))

run_line-IsOrderly :
    (w : World) (line : List ℕ) (s : Session) → IsOrderly s → Ends AreOrderly (run_line w line s)
unfolding run_line parse_user_input
run_line-IsOrderly w line s g =
    Ends-bind AreCommands AreOrderly (parse_user_input (unmarked line) s.cmds) _
      (parse_loop-AreCommands (suc (length (unmarked line))) (unmarked line) s.cmds 0 g.commands
        (omega arith))
      (λ parsed sizes.
        run_command-IsOrderly w (is_pipe_bg line) (unmarked line) (get_or parsed.0 0 [])
          (record s { cmds = parsed.0; shell = record s.shell { num_cmds = parsed.1 } })
          (record {
            ready = record {
              room = g.ready.room;
              entries = g.ready.entries;
              pids = g.ready.pids;
              few = sizes.1;
            };
            commands = sizes.0;
          }))

-- A line of input, or a SIGCHLD between two lines. What fork, waitpid and the rest answer is open.
pub data Step (s : Session) : Session → Type 0 where
  line :
      (w : World) (text : List ℕ) (t : Session) (effect : Effect)
      → run_line w text s ≡ ok (t, effect)
      → Step s t
  child_ends :
      (exited : ℕ → ℕ → ℤ → Bool) (killed : List ℤ) (shell : Shell)
      → child_handler exited s.shell ≡ ok (killed, shell)
      → Step s (record s { shell = shell })

-- The globals are 0 when main starts.
abbrev pub started : Table → Session
started table = record {
  shell = record {
    jobs = replicate max_jobs blank;
    nextjid = 1;
    num_cmds = 0;
    child_pids = replicate max_cmd_num (pos 0);
  };
  cmds = replicate max_cmd_num [];
  table = table;
}

pub data Reach (table : Table) : Session → Type 0 where
  here : Reach table (started table)
  next : {s t : Session} → Reach table s → Step s t → Reach table t

Step-IsOrderly : {s t : Session} → Step s t → IsOrderly s → IsOrderly t
Step-IsOrderly {s = s} (line w text t effect e) g =
    Ends-ok AreOrderly (run_line w text s) (run_line-IsOrderly w text s g) e
Step-IsOrderly {s = s} (child_ends exited killed shell e) g = record {
  ready =
      Ends-ok AreReady (child_handler exited s.shell) (child_handler-IsReady exited s.shell g.ready)
        e;
  commands = g.commands;
}

pub Reach-IsOrderly : {table : Table} {s : Session} → Reach table s → IsOrderly s
Reach-IsOrderly here = record {
  ready = record {
    room = refl;
    entries = All-replicate IsReadyJob max_jobs blank (refl, omega arith, λ ne. absurd (ne refl));
    pids = refl;
    few = omega arith;
  };
  commands = refl;
}
Reach-IsOrderly (next r step) = Step-IsOrderly step (Reach-IsOrderly r)

-- However the shell has come to its state, by whatever lines of input and SIGCHLDs between them, and whatever fork
-- and waitpid answered and answer: its next SIGCHLD runs to its end within the arrays, and kills pids of processes
-- only, never 0 or below, which stand for groups of processes.
pub handler_safe :
    (table : Table) (s : Session) (exited : ℕ → ℕ → ℤ → Bool)
    → Reach table s
    → (killed : List ℤ) × (t : Shell) × (child_handler exited s.shell ≡ ok (killed, t))
      × All (λ pid. below_one pid ≡ false) killed
handler_safe table s exited r =
    let (killed, t, e, processes, _) =
      child_handler_lem exited s.shell (IsReady-IsSound (Reach-IsOrderly r).ready) in
    (killed, t, e, processes)
