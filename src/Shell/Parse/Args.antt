-- ===== src/Shell/Parse/Args.antt =====
-- What parse_cmds of hw1/part_two.c makes of a command.
use cs.Base.{
  ℕ, suc, ◌+◌, ◌<◌, ◌≡◌, refl, ap, ◌∙◌, true, false, ◌&&◌, List, [], ◌∷◌, ltb, if◌then◌else◌, All,
  length, arith, lt→ltb,
}
use cs.Base.Outcome.{Outcome, ok, fault, ◌>>=◌}
use cs.Shell.Parse.{
  arg_delim, max_arg_num, max_arg_length, store_arg, arg_loop, first_arg, parse_cmds,
}
use cs.Shell.Parse.Tokens.{joined, tokens, IsWord, AreWords}
use cs.Shell.Parse.Loop.{loop-tokens}

-- The arguments that are stored from place `count` on.
keep_args : (ℕ → ℕ) → List (List ℕ) → ℕ → Outcome (List (List ℕ))
keep_args usable [] count = if ltb count max_arg_num then ok [] else fault
keep_args usable (t ∷ ts) count =
    let rest = keep_args usable ts (count + 1) in
    if ltb count max_arg_num && ltb (length t) (usable (length t))
    then (do args ← rest; ok (t ∷ args))
    else fault

arg_loop-keep_args :
    (usable : ℕ → ℕ) (words : List (List ℕ × ℕ)) (tail : List ℕ) (fuel : ℕ) (count : ℕ)
    → AreWords arg_delim words
    → IsWord arg_delim tail
    → length (joined words tail) < fuel
    → arg_loop usable fuel (joined words tail) count ≡ keep_args usable (tokens words tail) count
unfolding arg_loop keep_args
arg_loop-keep_args usable =
    loop-tokens arg_delim (store_arg usable) (arg_loop usable) (keep_args usable)
      (λ fuel ptr count. refl) (λ again count. refl)
      (λ t rest again ts count further.
        ap
          (λ o.
            if ltb count max_arg_num && ltb (length t) (usable (length t))
            then (do args ← o; ok (t ∷ args))
            else fault)
          (further (count + 1)))

keep_args_lem :
    (usable : ℕ → ℕ) (ts : List (List ℕ)) (count : ℕ)
    → All (λ t. length t < usable (length t)) ts
    → count + length ts < max_arg_num
    → keep_args usable ts count ≡ ok ts
unfolding keep_args
keep_args_lem usable [] count all lt =
    let here : ltb count max_arg_num ≡ true = ground (arith, lt) in rw here refl
keep_args_lem usable (t ∷ ts) count (this, all) lt =
    let here : ltb count max_arg_num ≡ true = ground (arith, lt) in
    rw
      (
        here,
        lt→ltb (length t) (usable (length t)) this,
        keep_args_lem usable ts (count + 1) all (omega (arith, lt)),
      )
      refl

-- A command is words, each behind its tabulator, quote or space, and what follows the last one. If the
-- words that have a character are fewer than 64, the first of them is shorter than 256, and malloc
-- gives a byte more than it is asked for, parse_cmds returns them in their order, and the first as the
-- name.
pub parse_cmds_lem :
    (usable : ℕ → ℕ) (words : List (List ℕ × ℕ)) (tail : List ℕ) (name : List ℕ)
    (args : List (List ℕ))
    → AreWords arg_delim words
    → IsWord arg_delim tail
    → tokens words tail ≡ name ∷ args
    → length (name ∷ args) < max_arg_num
    → length name < max_arg_length
    → All (λ t. length t < usable (length t)) (name ∷ args)
    → parse_cmds usable (joined words tail) ≡ ok (name, name ∷ args)
unfolding parse_cmds
parse_cmds_lem usable words tail name args are is e few short roomy =
    let looped : arg_loop usable (suc (length (joined words tail))) (joined words tail) 0
        ≡ ok (name ∷ args) =
      arg_loop-keep_args usable words tail (suc (length (joined words tail))) 0 are is (omega arith)
      ∙ ap (λ ts. keep_args usable ts 0) e
      ∙ keep_args_lem usable (name ∷ args) 0 roomy (omega (arith, few)) in
    rw (looped, lt→ltb (length name) max_arg_length short) refl

-- A command that parse_cmds splits into `args`, the first of which is the name, with malloc's memory.
pub record IsCommand (usable : ℕ → ℕ) (cmd name : List ℕ) (args : List (List ℕ)) : Type 0 where
  pub words : List (List ℕ × ℕ)
  pub tail : List ℕ
  pub text : cmd ≡ joined words tail
  pub are_words : AreWords arg_delim words
  pub is_word : IsWord arg_delim tail
  pub split : tokens words tail ≡ name ∷ args
  pub few : length (name ∷ args) < max_arg_num
  pub short : length name < max_arg_length
  pub roomy : All (λ t. length t < usable (length t)) (name ∷ args)

pub IsCommand-runs :
    (usable : ℕ → ℕ) (cmd name : List ℕ) (args : List (List ℕ))
    → IsCommand usable cmd name args
    → parse_cmds usable cmd ≡ ok (name, name ∷ args)
IsCommand-runs usable cmd name args c =
    ap (parse_cmds usable) c.text
    ∙ parse_cmds_lem usable c.words c.tail name args c.are_words c.is_word c.split c.few c.short
        c.roomy

abbrev as_result : Outcome (List (List ℕ)) → Outcome (List ℕ × List (List ℕ))
as_result o = do args ← o; name ← first_arg args; ok (name, args)

none_kept : (ts : List (List ℕ)) → as_result (keep_args (λ n. n) ts 0) ≡ fault
unfolding keep_args
none_kept [] = refl
none_kept (t ∷ ts) = let over : ltb (length t) (length t) ≡ false = ground arith in rw over refl

-- If malloc gives no more than it is asked for, the copy of the first word overruns its memory.
pub parse_cmds_fault :
    (words : List (List ℕ × ℕ)) (tail : List ℕ)
    → AreWords arg_delim words
    → IsWord arg_delim tail
    → parse_cmds (λ n. n) (joined words tail) ≡ fault
unfolding parse_cmds
parse_cmds_fault words tail are is =
    let looped =
      arg_loop-keep_args (λ n. n) words tail (suc (length (joined words tail))) 0 are is
        (omega arith) in
    ap as_result looped ∙ none_kept (tokens words tail)
