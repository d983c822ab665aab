-- ===== src/Shell/Pipeline/Ends.antt =====
-- What the children of eval_cmd of hw1/part_two.c are connected to, and what the shell is left with.
use cs.Base.{
  ℕ, zero, suc, ◌+◌, ◌<◌, ◌≡◌, ◌≢◌, refl, sym, ap, ◌∙◌, none, some, List, [], ◌∷◌, ◌==◌,
  if◌then◌else◌, get_or, arith, ℕ_discrete, subst, length,
}
use cs.Base.Outcome.{ok}
use cs.Base.Family.{update}
use cs.Shell.Parse.{parse_cmds}
use cs.Shell.Parse.Args.{IsCommand, IsCommand-runs}
use cs.Shell.Pipeline.{read_of, write_of, Table, close, Started, eval_loop, eval_cmd}
use cs.Shell.Pipeline.Descriptors.{
  IsFresh, source, sink, update_here, update_other, piped, piped_other, last_read, redirect_lem,
}

-- The children from place `i` on: what each reads, what it writes and what it runs.
abbrev pub Chain : (ℕ → ℕ) → List (List ℕ) → ℕ → Table → ℕ → List Started → Type 0
Chain usable cmds n t i [] = i ≡ n
Chain usable cmds n t i (c ∷ cs) =
    (c.table 0 ≡ source t i)
    × (c.table 1 ≡ sink t n i)
    × (c.program ≡ parse_cmds usable (get_or cmds i []))
    × Chain usable cmds n t (i + 1) cs

-- The shell's table in the next round.
abbrev next_table : ℕ × ℕ → ℕ → Table → Table
next_table p i t = close p.1 (piped p i t)

next_other : (p : ℕ × ℕ) (i d : ℕ) (t : Table) → p.0 ≢ d → p.1 ≢ d → next_table p i t d ≡ t d
next_other p i d t ne ne' = update_other (piped p i t) p.1 d none ne' ∙ piped_other p i d t ne ne'

next_read : (p : ℕ × ℕ) (i : ℕ) (t : Table) → p.0 ≢ p.1 → next_table p i t p.0 ≡ some (read_of i)
next_read p i t ne =
    update_other (piped p i t) p.1 p.0 none (λ e. ne (sym e))
    ∙ update_other (update t p.0 (some (read_of i))) p.1 p.0 (some (write_of i)) (λ e. ne (sym e))
    ∙ update_here t p.0 (some (read_of i))

next_reads :
    (pipe : ℕ → ℕ × ℕ) (i : ℕ) (t : Table)
    → IsFresh pipe
    → ((j : ℕ) → j < i → t ((pipe j).0) ≡ some (read_of j))
    → (j : ℕ) → j < i + 1
    → next_table (pipe i) i t ((pipe j).0) ≡ some (read_of j)
next_reads pipe i t fresh reads j lt = elim (ℕ_discrete i j) [
  | yes e ↦
      subst (λ k. next_table (pipe i) i t ((pipe k).0) ≡ some (read_of k)) e
        (next_read (pipe i) i t (fresh.apart i))
  | no ne ↦
      (let below : j < i = omega (arith, ne, lt) in
        next_other (pipe i) i ((pipe j).0) t (λ e. fresh.read_new j i below (sym e))
          (λ e. fresh.write_new j i below (sym e))
        ∙ reads j below)
]

source_cong : (i : ℕ) (t t' : Table) → t' 0 ≡ t 0 → source t' i ≡ source t i
source_cong zero t t' e = e
source_cong (suc i) t t' e = refl

Chain-cong :
    (usable : ℕ → ℕ) (cmds : List (List ℕ)) (n i : ℕ) (t t' : Table) (cs : List Started)
    → t' 0 ≡ t 0
    → t' 1 ≡ t 1
    → Chain usable cmds n t' i cs
    → Chain usable cmds n t i cs
Chain-cong usable cmds n i t t' [] e0 e1 h = h
Chain-cong usable cmds n i t t' (c ∷ cs) e0 e1 (at_0, at_1, program, h) = (
  at_0 ∙ source_cong i t t' e0,
  at_1 ∙ ap (λ o. if i + 1 == n then o else some (write_of i)) e1,
  program,
  Chain-cong usable cmds n (i + 1) t t' cs e0 e1 h,
)

last_next : (pipe : ℕ → ℕ × ℕ) (i : ℕ) → last_read pipe (i + 1) ≡ some ((pipe i).0)
last_next pipe i = ap (last_read pipe) {x = i + 1} {y = suc i} (omega arith)

eval_loop_lem :
    (usable : ℕ → ℕ) (pipe : ℕ → ℕ × ℕ) (pids : ℕ → ℕ) (cmds : List (List ℕ)) (n k i : ℕ)
    (t : Table)
    → IsFresh pipe
    → i + k ≡ n
    → ((j : ℕ) → j < i → t ((pipe j).0) ≡ some (read_of j))
    → (t' : Table) × (cs : List Started) × (eval_loop usable pipe
          (λ j. some (pids j))
          cmds
          n
          k
          i
          (last_read pipe i)
          t
        ≡ ok (t', cs))
      × Chain usable cmds n t i cs
      × ((j : ℕ) → j < n → t' ((pipe j).0) ≡ some (read_of j))
unfolding eval_loop
eval_loop_lem usable pipe pids cmds n zero i t fresh e reads =
    (t, [], refl, omega (arith, e), λ j lt. reads j (omega (arith, e, lt)))
eval_loop_lem usable pipe pids cmds n (suc k) i t fresh e reads =
    let (table, run, at_0, at_1) = redirect_lem pipe i n t fresh reads in
    let (t', cs, rest, chain, open_reads) =
      eval_loop_lem usable pipe pids cmds n k (i + 1) (next_table (pipe i) i t) fresh
        (omega (arith, e)) (next_reads pipe i t fresh reads) in
    let here = next_other (pipe i) i in
    let high = fresh.read_high i in
    let high' = fresh.write_high i in
    let again =
      ap
        (λ o.
          eval_loop usable pipe (λ j. some (pids j)) cmds n k (i + 1) o (next_table (pipe i) i t))
        (sym (last_next pipe i))
      ∙ rest in
    (
      t',
      record { pid = pids i; table = table; program = parse_cmds usable (get_or cmds i []) } ∷ cs,
      rw (run, again) refl,
      (
        at_0,
        at_1,
        refl,
        Chain-cong usable cmds n (i + 1) t (next_table (pipe i) i t) cs
            (here 0 t (λ e'. omega (arith, e', high)) (λ e'. omega (arith, e', high')))
            (here 1 t (λ e'. omega (arith, e', high)) (λ e'. omega (arith, e', high'))) chain,
      ),
      open_reads,
    )

pub eval_cmd-Chain :
    (usable : ℕ → ℕ) (pipe : ℕ → ℕ × ℕ) (pids : ℕ → ℕ) (cmds : List (List ℕ)) (num_cmds : ℕ)
    (t : Table)
    → IsFresh pipe
    → (t' : Table) × (cs : List Started) × (eval_cmd usable pipe
          (λ j. some (pids j))
          cmds
          num_cmds
          t
        ≡ ok (t', cs))
      × Chain usable cmds num_cmds t 0 cs
      × ((j : ℕ) → j < num_cmds → t' ((pipe j).0) ≡ some (read_of j))
unfolding eval_cmd
eval_cmd-Chain usable pipe pids cmds num_cmds t fresh =
    eval_loop_lem usable pipe pids cmds num_cmds num_cmds 0 t fresh (omega arith)
      (λ j lt. absurd (omega (arith, lt)))

-- The words of each command: the name and the arguments behind it.
abbrev pub AreCommands : (ℕ → ℕ) → List (List ℕ) → ℕ → (ℕ → List ℕ × List (List ℕ)) → Type 0
AreCommands usable cmds n words =
    (j : ℕ) → j < n → IsCommand usable (get_or cmds j []) (words j).0 (words j).1

-- The children from place `i` on call execvp with the name and all words of their commands.
abbrev pub Execute : (ℕ → List ℕ × List (List ℕ)) → ℕ → List Started → Type 0
Execute words i [] = Unit
Execute words i (c ∷ cs) =
    (c.program ≡ ok ((words i).0, (words i).0 ∷ (words i).1)) × Execute words (i + 1) cs

length-Chain :
    (usable : ℕ → ℕ) (cmds : List (List ℕ)) (n : ℕ) (t : Table) (i : ℕ) (cs : List Started)
    → Chain usable cmds n t i cs
    → i + length cs ≡ n
length-Chain usable cmds n t i [] h = omega (arith, h)
length-Chain usable cmds n t i (c ∷ cs) h =
    omega (arith, length-Chain usable cmds n t (i + 1) cs h.3)

pub Chain-Execute :
    (usable : ℕ → ℕ) (cmds : List (List ℕ)) (n : ℕ) (words : ℕ → List ℕ × List (List ℕ)) (t : Table)
    (i : ℕ) (cs : List Started)
    → AreCommands usable cmds n words
    → Chain usable cmds n t i cs
    → Execute words i cs
Chain-Execute usable cmds n words t i [] are h = tt
Chain-Execute usable cmds n words t i (c ∷ cs) are h =
    let lt : i < n = omega (arith, length-Chain usable cmds n t i (c ∷ cs) h) in
    (
      h.2 ∙ IsCommand-runs usable (get_or cmds i []) (words i).0 (words i).1 (are i lt),
      Chain-Execute usable cmds n words t (i + 1) cs are h.3,
    )

-- Where every fork succeeds, pipe gives descriptors that are not open, and every command has a word,
-- fewer than 64 of them, the first shorter than 256, and malloc gives a byte more than it is asked
-- for: eval_cmd starts as many children as there are commands, and each calls execvp with the words of
-- its own command. The first reads what the shell reads, each other one the pipe of the command
-- before; the last writes what the shell writes, each other one its own pipe. The shell keeps the read
-- end of every pipe open.
pub eval_cmd_lem :
    (usable : ℕ → ℕ) (pipe : ℕ → ℕ × ℕ) (pids : ℕ → ℕ) (cmds : List (List ℕ)) (num_cmds : ℕ)
    (words : ℕ → List ℕ × List (List ℕ)) (t : Table)
    → IsFresh pipe
    → AreCommands usable cmds num_cmds words
    → (t' : Table) × (cs : List Started) × (eval_cmd usable pipe
          (λ j. some (pids j))
          cmds
          num_cmds
          t
        ≡ ok (t', cs))
      × (length cs ≡ num_cmds)
      × Chain usable cmds num_cmds t 0 cs
      × Execute words 0 cs
      × ((j : ℕ) → j < num_cmds → t' ((pipe j).0) ≡ some (read_of j))
eval_cmd_lem usable pipe pids cmds num_cmds words t fresh are =
    let (t', cs, run, chain, reads) = eval_cmd-Chain usable pipe pids cmds num_cmds t fresh in
    let size = length-Chain usable cmds num_cmds t 0 cs chain in
    (
      t',
      cs,
      run,
      omega (arith, size),
      chain,
      Chain-Execute usable cmds num_cmds words t 0 cs are chain,
      reads,
    )
