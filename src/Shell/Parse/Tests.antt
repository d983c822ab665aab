-- ===== src/Shell/Parse/Tests.antt =====
-- Runs of the parsers of hw1/part_two.c.
use cs.Base.{ℕ, ◌≡◌, refl, List, [], ◌∷◌, replicate, arith, ◌+◌}
use cs.Base.Outcome.{ok, fault}
use cs.Shell.Parse.{parse_user_input, parse_cmds}
use cs.Shell.Parse.Commands.{parse_user_input_lem}
use cs.Shell.Parse.Args.{parse_cmds_lem}

-- "ls |wc\n"
abbrev two_words : List (List ℕ × ℕ)
two_words = (108 ∷ 115 ∷ 32 ∷ [], 124) ∷ (119 ∷ 99 ∷ [], 10) ∷ []

abbrev before : List (List ℕ)
before = replicate 8 (120 ∷ [])

parse_user_input_lem_example :
    parse_user_input (108 ∷ 115 ∷ 32 ∷ 124 ∷ 119 ∷ 99 ∷ 10 ∷ []) before
    ≡ ok ((108 ∷ 115 ∷ 32 ∷ []) ∷ (119 ∷ 99 ∷ []) ∷ replicate 6 (120 ∷ []), 2)
parse_user_input_lem_example =
    parse_user_input_lem two_words [] before
      ((refl, (refl, (refl, tt))), (refl, ((refl, (refl, tt)), (refl, tt)))) tt refl

-- An empty line leaves the commands of the line before.
empty_line : parse_user_input (10 ∷ []) before ≡ ok (before, 0)
unfolding parse_user_input
empty_line = refl

nine_commands :
    parse_user_input
      (97 ∷ 124 ∷ 97 ∷ 124 ∷ 97 ∷ 124 ∷ 97 ∷ 124 ∷ 97 ∷ 124 ∷ 97 ∷ 124 ∷ 97 ∷ 124 ∷ 97 ∷ 124 ∷ 97
        ∷ 10 ∷ [])
      before
    ≡ fault
unfolding parse_user_input
nine_commands = refl

-- "ls  -l"
parse_cmds_lem_example :
    parse_cmds (λ n. n + 8) (108 ∷ 115 ∷ 32 ∷ 32 ∷ 45 ∷ 108 ∷ [])
    ≡ ok (108 ∷ 115 ∷ [], (108 ∷ 115 ∷ []) ∷ (45 ∷ 108 ∷ []) ∷ [])
parse_cmds_lem_example =
    parse_cmds_lem (λ n. n + 8) ((108 ∷ 115 ∷ [], 32) ∷ ([], 32) ∷ []) (45 ∷ 108 ∷ [])
      (108 ∷ 115 ∷ []) ((45 ∷ 108 ∷ []) ∷ []) ((refl, (refl, tt)), (refl, (tt, (refl, tt))))
      (refl, (refl, tt)) refl (omega arith) (omega arith) (omega arith, (omega arith, tt))
