-- ===== src/Shell/Main/Tests.antt =====
-- Runs of the loop of main in hw1/part_two.c.
use cs.Base.{
  zero, ℕ, suc, ◌+◌, ◌≡◌, refl, true, false, some, List, [], ◌∷◌, arith, replicate, All, set,
}
use cs.Base.Int.{ℤ, pos, below_one}
use cs.Base.Outcome.{ok}
use cs.Base.Family.{update}
use cs.Shell.Jobs.{Job, JobState, Shell, first_job, addjob}
use cs.Shell.Jobs.Add.{blank}
use cs.Shell.Line.{is_pipe_bg, delete_bg_character}
use cs.Shell.Parse.{parse_user_input, parse_cmds}
use cs.Shell.Jobs.Handler.{child_handler}
use cs.Shell.Pipeline.{inherited, read_of, write_of, close, Table, Started, eval_cmd}
use cs.Shell.Pipeline.Descriptors.{IsFresh}
use cs.Shell.Pipeline.Ends.{AreCommands, Execute}
use cs.Shell.Main.{World, Session, starts, start_line, run_line}
use cs.Shell.Main.Reach.{Step, line, here, next, started, Reach-IsOrderly, handler_safe}
use cs.Shell.Main.Starts.{IsStarted}
use cs.Shell.Main.Runs.{run_line-IsStarted}
use cs.Shell.Main.Blank.{run_line-adds_again}

abbrev world : World
world = record {
  usable = λ n. n + 8;
  pipe = λ i. (3 + i, 4 + i);
  fork = λ i. some (suc (99 + i));
  atoi = λ s. pos 1;
  exited = λ i pid. true;
}

abbrev fresh_start : Session
fresh_start = started (λ fd. some (inherited fd))

-- "ls|wc &\n"
abbrev ls_and_wc : List ℕ
ls_and_wc = 108 ∷ 115 ∷ 124 ∷ 119 ∷ 99 ∷ 32 ∷ 38 ∷ 10 ∷ []

abbrev two_pipes : Table
two_pipes = close 5 (
    update
      (update
        (close 4
          (update (update (λ fd. some (inherited fd)) 3 (some (read_of 0))) 4 (some (write_of 0))))
        4 (some (read_of 1)))
      5 (some (write_of 1)))

abbrev ls_job : Job
ls_job = record {
  pid = pos 100;
  jid = 1;
  state = JobState.bg;
  cmdline = 108 ∷ 115 ∷ 124 ∷ 119 ∷ 99 ∷ 32 ∷ 32 ∷ 10 ∷ [];
  pid_q = pos 100 ∷ pos 101 ∷ replicate 6 (pos 0);
  pid_q_length = 2;
}

-- The shell behind "ls|wc &".
abbrev after_ls : Session
after_ls = record {
  shell = record {
    jobs = ls_job ∷ replicate 15 blank;
    nextjid = 2;
    num_cmds = 2;
    child_pids = pos 100 ∷ pos 101 ∷ replicate 6 (pos 0);
  };
  cmds = (108 ∷ 115 ∷ []) ∷ (119 ∷ 99 ∷ 32 ∷ 32 ∷ []) ∷ replicate 6 [];
  table = two_pipes;
}

ls_step : Step fresh_start after_ls
unfolding run_line is_pipe_bg delete_bg_character parse_user_input start_line eval_cmd parse_cmds
    addjob
ls_step = line world ls_and_wc after_ls _ refl

handler_safe_example :
    (killed : List ℤ) × (t : Shell) × (child_handler (λ i j pid. true) after_ls.shell
      ≡ ok (killed, t))
    × All (λ pid. below_one pid ≡ false) killed
handler_safe_example =
    handler_safe (λ fd. some (inherited fd)) after_ls (λ i j pid. true) (next here ls_step)

lowest-IsFresh : IsFresh (λ i. (3 + i, 4 + i))
lowest-IsFresh = record {
  read_high = λ i. omega arith;
  write_high = λ i. omega arith;
  apart = λ i e. omega (arith, e);
  read_new = λ j i lt e. omega (arith, lt, e);
  write_new = λ j i lt e. omega (arith, lt, e);
}

-- "ls" and "wc", without arguments.
abbrev argv : ℕ → List ℕ × List (List ℕ)
argv zero = (108 ∷ 115 ∷ [], [])
argv (suc j) = (119 ∷ 99 ∷ [], [])

argv-AreCommands :
    AreCommands (λ n. n + 8) ((108 ∷ 115 ∷ []) ∷ (119 ∷ 99 ∷ 32 ∷ 32 ∷ []) ∷ []) 2 argv
argv-AreCommands zero lt = record {
  words = [];
  tail = 108 ∷ 115 ∷ [];
  text = refl;
  are_words = tt;
  is_word = (refl, (refl, tt));
  split = refl;
  few = omega arith;
  short = omega arith;
  roomy = (omega arith, tt);
}
argv-AreCommands (suc zero) lt = record {
  words = (119 ∷ 99 ∷ [], 32) ∷ ([], 32) ∷ [];
  tail = [];
  text = refl;
  are_words = ((refl, (refl, tt)), (refl, (tt, (refl, tt))));
  is_word = tt;
  split = refl;
  few = omega arith;
  short = omega arith;
  roomy = (omega arith, tt);
}
argv-AreCommands (suc (suc j)) lt = absurd (omega (arith, lt))

-- "ls|" and "wc  " behind it: the words of the line without its mark.
run_line-IsStarted_example :
    (t : Session) × (children : List Started) × (awaited : List ℤ) × (run_line world ls_and_wc
        fresh_start
      ≡ ok (t, starts children awaited))
    × IsStarted world
        (λ i. 99 + i)
        true
        (108 ∷ 115 ∷ 124 ∷ 119 ∷ 99 ∷ 32 ∷ 32 ∷ 10 ∷ [])
        2
        0
        fresh_start.table
        fresh_start.shell.jobs
        after_ls.cmds
        t
        children
        awaited
    × Execute argv 0 children
unfolding is_pipe_bg delete_bg_character first_job
run_line-IsStarted_example =
    run_line-IsStarted world (λ i. 99 + i) ls_and_wc
      ((108 ∷ 115 ∷ [], 124) ∷ (119 ∷ 99 ∷ 32 ∷ 32 ∷ [], 10) ∷ []) [] (108 ∷ 115 ∷ [])
      ((119 ∷ 99 ∷ 32 ∷ 32 ∷ []) ∷ []) argv 0 fresh_start (Reach-IsOrderly here) refl
      ((refl, (refl, tt)), (refl, ((refl, (refl, (refl, (refl, tt)))), (refl, tt)))) tt refl
      (omega arith) refl argv-AreCommands lowest-IsFresh refl refl

run_line-adds_again_example :
    (t : Session) × (job : Job) × (run_line world (10 ∷ []) after_ls ≡ ok (t, starts [] []))
    × (t.shell.jobs ≡ set after_ls.shell.jobs 1 job)
    × (job.pid ≡ pos 100)
    × (job.pid_q_length ≡ 0)
unfolding is_pipe_bg first_job
run_line-adds_again_example =
    run_line-adds_again world (10 ∷ []) (([], 10) ∷ []) [] 99 1 after_ls
      (Reach-IsOrderly (next here ls_step)) refl (tt, (refl, tt)) tt refl refl refl refl
