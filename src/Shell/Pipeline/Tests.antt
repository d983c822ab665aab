-- ===== src/Shell/Pipeline/Tests.antt =====
-- Runs of eval_cmd of hw1/part_two.c.
use cs.Base.{
  ℕ, zero, suc, refl, length, ◌+◌, ◌<◌, ◌≡◌, none, some, List, [], ◌∷◌, arith, ltb, if◌then◌else◌,
}
use cs.Base.Outcome.{ok}
use cs.Shell.Pipeline.{read_of, inherited, Table, Started, eval_cmd}
use cs.Shell.Pipeline.Descriptors.{IsFresh}
use cs.Shell.Pipeline.Ends.{Chain, AreCommands, Execute, eval_cmd_lem}

abbrev started_with : Table
started_with fd = if ltb fd 3 then some (inherited fd) else none

-- The lowest descriptors that are not open.
abbrev lowest : ℕ → ℕ × ℕ
lowest i = (3 + i, 4 + i)

lowest-IsFresh : IsFresh lowest
lowest-IsFresh = record {
  read_high = λ i. omega arith;
  write_high = λ i. omega arith;
  apart = λ i e. omega (arith, e);
  read_new = λ j i lt e. omega (arith, lt, e);
  write_new = λ j i lt e. omega (arith, lt, e);
}

abbrev ls_and_wc : List (List ℕ)
ls_and_wc = (108 ∷ 115 ∷ 32 ∷ []) ∷ (119 ∷ 99 ∷ []) ∷ []

-- "ls" and "wc", without arguments.
abbrev words : ℕ → List ℕ × List (List ℕ)
words zero = (108 ∷ 115 ∷ [], [])
words (suc j) = (119 ∷ 99 ∷ [], [])

ls_and_wc-AreCommands : AreCommands (λ n. n + 8) ls_and_wc 2 words
ls_and_wc-AreCommands zero lt = record {
  words = (108 ∷ 115 ∷ [], 32) ∷ [];
  tail = [];
  text = refl;
  are_words = ((refl, (refl, tt)), (refl, tt));
  is_word = tt;
  split = refl;
  few = omega arith;
  short = omega arith;
  roomy = (omega arith, tt);
}
ls_and_wc-AreCommands (suc zero) lt = record {
  words = [];
  tail = 119 ∷ 99 ∷ [];
  text = refl;
  are_words = tt;
  is_word = (refl, (refl, tt));
  split = refl;
  few = omega arith;
  short = omega arith;
  roomy = (omega arith, tt);
}
ls_and_wc-AreCommands (suc (suc j)) lt = absurd (omega (arith, lt))

eval_cmd_lem_example :
    (t' : Table) × (cs : List Started) × (eval_cmd
        (λ n. n + 8)
        lowest
        (λ j. some (100 + j))
        ls_and_wc
        2
        started_with
      ≡ ok (t', cs))
    × (length cs ≡ 2)
    × Chain (λ n. n + 8) ls_and_wc 2 started_with 0 cs
    × Execute words 0 cs
    × ((j : ℕ) → j < 2 → t' ((lowest j).0) ≡ some (read_of j))
eval_cmd_lem_example =
    eval_cmd_lem (λ n. n + 8) lowest (λ j. 100 + j) ls_and_wc 2 words started_with lowest-IsFresh
      ls_and_wc-AreCommands
