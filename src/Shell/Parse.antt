-- ===== src/Shell/Parse.antt =====
-- parse_user_input and parse_cmds of hw1/part_two.c: a line becomes commands, a command its arguments.
-- A string is its characters before the 0 byte, as their codes.
pub mod Tokens
pub mod Loop
pub mod Commands
pub mod Args
mod Tests
use cs.Base.{
  ℕ, zero, suc, ◌+◌, Bool, true, false, ◌&&◌, Option, none, some, List, [], ◌∷◌, ◌++◌, ltb, ◌==◌,
  if◌then◌else◌, set, length,
}
use cs.Base.Outcome.{Outcome, ok, fault, ◌>>=◌, deref}
use cs.Shell.Jobs.{max_cmd_num}

abbrev pub is_in : List ℕ → ℕ → Bool
is_in [] c = false
is_in (d ∷ delim) c = if d == c then true else is_in delim c

-- strtok_r of C: it skips delimiters, and takes the characters up to the next one, which it overwrites by 0.
unfoldable pub skip : List ℕ → List ℕ → List ℕ
skip delim [] = []
skip delim (c ∷ s) = let rest = skip delim s in if is_in delim c then rest else c ∷ s

unfoldable pub cut : List ℕ → List ℕ → List ℕ × List ℕ
cut delim [] = ([], [])
cut delim (c ∷ s) =
    let (token, rest) = cut delim s in if is_in delim c then ([], s) else (c ∷ token, rest)

abbrev pub cut_some : List ℕ → List ℕ → Option (List ℕ × List ℕ)
cut_some delim [] = none
cut_some delim (c ∷ s) = some (cut delim (c ∷ s))

unfoldable pub strtok_r : List ℕ → List ℕ → Option (List ℕ × List ℕ)
unfolding skip cut
strtok_r delim s = cut_some delim (skip delim s)

-- "\n|" and "\t' "
abbrev pub command_delim : List ℕ
command_delim = 10 ∷ 124 ∷ []

abbrev pub arg_delim : List ℕ
arg_delim = 9 ∷ 39 ∷ 32 ∷ []

-- The body of the loop of parse_user_input, which writes `cmds[count++]`; a write behind the array is
-- undefined.
abbrev pub store_command :
    Option (List ℕ × List ℕ)
    → (List ℕ → List (List ℕ) → ℕ → Outcome (List (List ℕ) × ℕ))
    → List (List ℕ)
    → ℕ
    → Outcome (List (List ℕ) × ℕ)
store_command none again cmds count = ok (cmds, count)
store_command (some (token, rest)) again cmds count =
    if ltb count max_cmd_num then again rest (set cmds count token) (count + 1) else fault

unfoldable pub parse_loop : ℕ → List ℕ → List (List ℕ) → ℕ → Outcome (List (List ℕ) × ℕ)
unfolding strtok_r
parse_loop zero ptr cmds count = fault
parse_loop (suc fuel) ptr cmds count =
    store_command (strtok_r command_delim ptr) (parse_loop fuel) cmds count

-- parse_user_input: the global `cmds` and the count that it returns.
unfoldable pub parse_user_input : List ℕ → List (List ℕ) → Outcome (List (List ℕ) × ℕ)
unfolding parse_loop
parse_user_input user_input cmds = parse_loop (suc (length user_input)) user_input cmds 0

abbrev pub max_arg_num : ℕ
max_arg_num = 64

abbrev pub max_arg_length : ℕ
max_arg_length = 256

-- The body of the loop of parse_cmds, and the NULL behind the arguments. `usable n` are the bytes that may be
-- written where `malloc(n)` returns; the copy of a token takes one more than its characters.
abbrev pub store_arg :
    (ℕ → ℕ)
    → Option (List ℕ × List ℕ)
    → (List ℕ → ℕ → Outcome (List (List ℕ)))
    → ℕ
    → Outcome (List (List ℕ))
store_arg usable none again count = if ltb count max_arg_num then ok [] else fault
store_arg usable (some (token, rest)) again count =
    if ltb count max_arg_num && ltb (length token) (usable (length token))
    then (do args ← again rest (count + 1); ok (token ∷ args))
    else fault

unfoldable pub arg_loop : (ℕ → ℕ) → ℕ → List ℕ → ℕ → Outcome (List (List ℕ))
unfolding strtok_r
arg_loop usable zero ptr count = fault
arg_loop usable (suc fuel) ptr count =
    store_arg usable (strtok_r arg_delim ptr) (arg_loop usable fuel) count

-- `strcpy(name, arg_v[0])`; without a token `arg_v[0]` is not set.
abbrev pub first_arg : List (List ℕ) → Outcome (List ℕ)
first_arg [] = fault
first_arg (arg ∷ args) = if ltb (length arg) max_arg_length then ok arg else fault

-- parse_cmds: the name, and the arguments before the NULL.
unfoldable pub parse_cmds : (ℕ → ℕ) → List ℕ → Outcome (List ℕ × List (List ℕ))
unfolding arg_loop
parse_cmds usable cmd = do
  args ← arg_loop usable (suc (length cmd)) cmd 0
  name ← first_arg args
  ok (name, args)
