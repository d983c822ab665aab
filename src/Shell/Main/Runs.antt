-- ===== src/Shell/Main/Runs.antt =====
-- What one round of main in hw1/part_two.c does for a line of commands, and for a line without any.
use cs.Base.{
  zero, subst, sym, ℕ, suc, ◌<◌, ◌≤◌, ◌≡◌, refl, ap, ◌∙◌, Bool, true, false, ◌||◌, some, List, [],
  ◌∷◌, arith, get_or, length, leb, if◌then◌else◌,
}
use cs.Base.Int.{ℤ}
use cs.Base.Text.{starts_with}
use cs.Base.Outcome.{Outcome, ok}
use cs.Shell.Jobs.{max_cmd_num, first_job, is_free}
use cs.Shell.Line.{is_pipe_bg}
use cs.Shell.Parse.{command_delim, parse_user_input}
use cs.Shell.Parse.Tokens.{joined, tokens, IsWord, AreWords}
use cs.Shell.Parse.Commands.{put_first, parse_user_input_lem}
use cs.Shell.Pipeline.{Started}
use cs.Shell.Pipeline.Descriptors.{IsFresh}
use cs.Shell.Parse.Args.{IsCommand}
use cs.Shell.Pipeline.Ends.{AreCommands, Execute, Chain-Execute}
use cs.Shell.Main.{
  World, Session, Effect, starts, start_line, run_command, run_line, unmarked, starts_with,
  exit_word, cd_word, fg_word, bg_word, jobs_word,
}
use cs.Shell.Main.Starts.{IsStarted, start_line-IsStarted}
use cs.Shell.Main.Reach.{IsOrderly}

abbrev pub is_builtin : List ℕ → Bool
is_builtin cmd =
    starts_with exit_word cmd
    || (starts_with cd_word cmd
        || (starts_with fg_word cmd || (starts_with bg_word cmd || starts_with jobs_word cmd)))

last_branch :
    (a b c d e : Bool) (x y z u v r : Outcome (Session × Effect))
    → (a || (b || (c || (d || e)))) ≡ false
    → ◌≡◌ {A = Outcome (Session × Effect)}
        (if a then x else if b then y else if c then z else if d then u else if e then v else r)
        r
last_branch true b c d e x y z u v r h = absurd cc
last_branch false true c d e x y z u v r h = absurd cc
last_branch false false true d e x y z u v r h = absurd cc
last_branch false false false true e x y z u v r h = absurd cc
last_branch false false false false true x y z u v r h = absurd cc
last_branch false false false false false x y z u v r h = refl

pub run_command-start :
    (w : World) (in_background : Bool) (cmdline cmd : List ℕ) (s : Session)
    → is_builtin cmd ≡ false
    → run_command w in_background cmdline cmd s ≡ start_line w in_background cmdline s
unfolding run_command
run_command-start w in_background cmdline cmd s other =
    last_branch (starts_with exit_word cmd) (starts_with cd_word cmd) (starts_with fg_word cmd)
      (starts_with bg_word cmd) (starts_with jobs_word cmd) _ _ _ _ _ _ other

pub parse_few :
    (words : List (List ℕ × ℕ)) (tail : List ℕ) (cmds : List (List ℕ))
    → AreWords command_delim words
    → IsWord command_delim tail
    → length cmds ≡ max_cmd_num
    → length (tokens words tail) ≤ max_cmd_num
    → parse_user_input (joined words tail) cmds
      ≡ ok (put_first (tokens words tail) cmds, length (tokens words tail))
parse_few words tail cmds are is size few =
    let fits : leb (length (tokens words tail)) max_cmd_num ≡ true = ground arith in
    parse_user_input_lem words tail cmds are is size ∙ rw fits refl

length-put_first : (ts cmds : List (List ℕ)) → length (put_first ts cmds) ≡ length cmds
length-put_first [] cmds = refl
length-put_first (t ∷ ts) [] = refl
length-put_first (t ∷ ts) (c ∷ cmds) = ap suc (length-put_first ts cmds)

get-put_first :
    (ts cmds : List (List ℕ)) (j : ℕ)
    → j < length ts
    → length ts ≤ length cmds
    → get_or (put_first ts cmds) j [] ≡ get_or ts j []
get-put_first [] cmds j lt fit = absurd (omega (arith, lt))
get-put_first (t ∷ ts) [] j lt fit = absurd (omega (arith, fit))
get-put_first (t ∷ ts) (c ∷ cmds) zero lt fit = refl
get-put_first (t ∷ ts) (c ∷ cmds) (suc j) lt fit =
    get-put_first ts cmds j (omega (arith, lt)) (omega (arith, fit))

-- The session in which the commands of a line are run.
abbrev pub parsed : List (List ℕ) → Session → Session
parsed ts s = record s {
  cmds = put_first ts s.cmds;
  shell = record s.shell { num_cmds = length ts };
}

parsed-IsOrderly :
    (ts : List (List ℕ)) (s : Session)
    → length ts ≤ max_cmd_num
    → IsOrderly s
    → IsOrderly (parsed ts s)
parsed-IsOrderly ts s few g = record {
  ready = record { room = g.ready.room; entries = g.ready.entries; pids = g.ready.pids; few = few };
  commands = length-put_first ts s.cmds ∙ g.commands;
}

-- A line of one to eight commands, the first of which is none of the shell's own, in an orderly
-- session with a free entry of the job list, where every fork succeeds, pipe gives descriptors that
-- are not open, and every command has a word, fewer than 64 of them, the first shorter than 256, and
-- malloc gives a byte more than it is asked for. The round starts as many children, each of which
-- calls execvp with the words of its command, in a chain of pipes from the shell's input to its
-- output. It puts a job with the pids of all children at the free entry, as a background job if the
-- line has the mark '&' and as a foreground job else; and it waits for all children in the second case
-- and for none in the first.
pub run_line-IsStarted :
    (w : World) (pids : ℕ → ℕ) (line : List ℕ) (words : List (List ℕ × ℕ)) (tail first : List ℕ)
    (more : List (List ℕ)) (argv : ℕ → List ℕ × List (List ℕ)) (place : ℕ) (s : Session)
    → IsOrderly s
    → unmarked line ≡ joined words tail
    → AreWords command_delim words
    → IsWord command_delim tail
    → tokens words tail ≡ first ∷ more
    → length (first ∷ more) ≤ max_cmd_num
    → is_builtin first ≡ false
    → AreCommands w.usable (first ∷ more) (length (first ∷ more)) argv
    → IsFresh w.pipe
    → w.fork ≡ (λ j. some (suc (pids j)))
    → first_job is_free s.shell.jobs ≡ some place
    → (t : Session) × (children : List Started) × (awaited : List ℤ) × (run_line w line s
        ≡ ok (t, starts children awaited))
      × IsStarted w pids
          (is_pipe_bg line)
          (unmarked line)
          (length (first ∷ more))
          place
          s.table
          s.shell.jobs
          (put_first (first ∷ more) s.cmds)
          t
          children
          awaited
      × Execute argv 0 children
unfolding run_line
run_line-IsStarted w pids line words tail first more argv place s g text are is words_are few other
      runnable fresh forked free =
    let s' = parsed (first ∷ more) s in
    let (t, children, awaited, run, started) =
      start_line-IsStarted w pids (is_pipe_bg line) (unmarked line) place s'
        (parsed-IsOrderly (first ∷ more) s few g) (omega arith) fresh forked free in
    let parse : parse_user_input (unmarked line) s.cmds
        ≡ ok (put_first (first ∷ more) s.cmds, length (first ∷ more)) =
      ap (λ l. parse_user_input l s.cmds) text
      ∙ parse_few words tail s.cmds are is g.commands (omega (arith, ap length words_are, few))
      ∙ ap (λ ts. ok (put_first ts s.cmds, length ts)) words_are in
    let cmd : get_or (put_first (first ∷ more) s.cmds) 0 [] ≡ first =
      get-put_first (first ∷ more) s.cmds 0 (omega arith) (omega (arith, g.commands, few)) in
    let stored : AreCommands w.usable s'.cmds (length (first ∷ more)) argv = λ j lt.
      subst (λ c. IsCommand w.usable c (argv j).0 (argv j).1)
        (sym (get-put_first (first ∷ more) s.cmds j lt (omega (arith, g.commands, few))))
        (runnable j lt) in
    let start = run_command-start w (is_pipe_bg line) (unmarked line) first s' other in
    (
      t,
      children,
      awaited,
      rw (parse, cmd) (start ∙ run),
      started,
      Chain-Execute w.usable s'.cmds (length (first ∷ more)) argv s.table 0 children stored
          started.connected,
    )
