-- ===== src/Shell/Pipeline.antt =====
-- eval_cmd of hw1/part_two.c: the pipeline of the commands of a line. A process's descriptors are a
-- function from their numbers; pipe, fork and malloc are parameters.
pub mod Descriptors
pub mod Ends
mod Tests
use cs.Base.{
  ℕ, zero, suc, ◌+◌, Bool, true, false, Option, none, some, List, [], ◌∷◌, ◌==◌, if◌then◌else◌,
  get_or,
}
use cs.Base.Outcome.{Outcome, ok, fault, ◌>>=◌}
use cs.Base.Family.{update}
use cs.Shell.Parse.{parse_cmds}

-- What a descriptor stands for: a file that the shell was started with, or an end of the pipe of a round.
pub data File : Type 0 where
  inherited : ℕ → File
  read_of : ℕ → File
  write_of : ℕ → File

abbrev pub Table : Type 0
Table = ℕ → Option File

abbrev pub close : ℕ → Table → Table
close fd t = update t fd none

-- A descriptor that is not open leaves the table as it is.
abbrev pub dup_file : Option File → ℕ → Table → Table
dup_file none fd t = t
dup_file (some f) fd t = update t fd (some f)

abbrev pub dup2 : ℕ → ℕ → Table → Table
dup2 old fd t = dup_file (t old) fd t

-- A child at its call of execvp, with what parse_cmds gave for its command.
pub record Started : Type 0 where
  pub pid : ℕ
  pub table : Table
  pub program : Outcome (List ℕ × List (List ℕ))

-- The descriptors of a child: it is in round `i` of `num_cmds`, `old` is oldpipe[READ_END], which is
-- unset before the first fork that succeeds, and `r` and `w` are the new pipe.
unfoldable pub redirect : ℕ → ℕ → Option ℕ → ℕ → ℕ → Table → Outcome Table
redirect i num_cmds old r w t = do
  t ←
      (if i == 0
        then ok (close r t)
        else (elim old [ none ↦ fault | some fd ↦ ok (close fd (dup2 fd 0 (close r t))) ]))
  ok (if i + 1 == num_cmds then t else close w (dup2 w 1 t))

-- `fork` gives the pid for a round, `none` for -1; the result is the table of the shell, `child_pids`, and
-- the children.
unfoldable pub eval_loop :
    (ℕ → ℕ)
    → (ℕ → ℕ × ℕ)
    → (ℕ → Option ℕ)
    → List (List ℕ)
    → ℕ
    → ℕ
    → ℕ
    → Option ℕ
    → Table
    → Outcome (Table × List Started)
unfolding redirect
eval_loop usable pipe fork cmds num_cmds zero i old t = ok (t, [])
eval_loop usable pipe fork cmds num_cmds (suc rounds) i old t =
    let (r, w) = pipe i in
    let t = update (update t r (some (read_of i))) w (some (write_of i)) in
    elim (fork i) [
      | none ↦ eval_loop usable pipe fork cmds num_cmds rounds (i + 1) old t
      | some pid ↦ (do
        table ← redirect i num_cmds old r w t
        (t, children) ← eval_loop usable pipe fork cmds num_cmds rounds (i + 1) (some r) (close w t)
        ok (
          t,
          record { pid = pid; table = table; program = parse_cmds usable (get_or cmds i []) }
              ∷ children,
        ))
    ]

unfoldable pub eval_cmd :
    (ℕ → ℕ)
    → (ℕ → ℕ × ℕ)
    → (ℕ → Option ℕ)
    → List (List ℕ)
    → ℕ
    → Table
    → Outcome (Table × List Started)
unfolding eval_loop
eval_cmd usable pipe fork cmds num_cmds t =
    eval_loop usable pipe fork cmds num_cmds num_cmds 0 none t
