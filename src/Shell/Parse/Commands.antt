-- ===== src/Shell/Parse/Commands.antt =====
-- What parse_user_input and parse_cmds of hw1/part_two.c make of a line and of a command.
use cs.Base.{
  ℕ, suc, ◌+◌, ◌<◌, ◌≡◌, refl, sym, ap, ap₂, ◌∙◌, true, false, List, [], ◌∷◌, ◌++◌, ltb, leb,
  if◌then◌else◌, set, length, length-append, arith,
}
use cs.Base.Outcome.{Outcome, ok, fault}
use cs.Shell.Jobs.{max_cmd_num}
use cs.Shell.Parse.{store_command, command_delim, parse_loop, parse_user_input}
use cs.Shell.Parse.Tokens.{joined, tokens, IsWord, AreWords}
use cs.Shell.Parse.Loop.{loop-tokens}

-- The commands that are stored from place `count` on.
store : List (List ℕ) → List (List ℕ) × ℕ → Outcome (List (List ℕ) × ℕ)
store [] (cmds, count) = ok (cmds, count)
store (t ∷ ts) (cmds, count) =
    if ltb count max_cmd_num then store ts (set cmds count t, count + 1) else fault

parse_loop-store :
    (words : List (List ℕ × ℕ)) (tail : List ℕ) (fuel : ℕ) (s : List (List ℕ) × ℕ)
    → AreWords command_delim words
    → IsWord command_delim tail
    → length (joined words tail) < fuel
    → parse_loop fuel (joined words tail) s.0 s.1 ≡ store (tokens words tail) s
unfolding parse_loop store
parse_loop-store =
    loop-tokens command_delim
      (λ o again s. store_command o (λ ptr cmds count. again ptr (cmds, count)) s.0 s.1)
      (λ fuel ptr s. parse_loop fuel ptr s.0 s.1) store (λ fuel ptr s. refl) (λ again s. refl)
      (λ t rest again ts s further.
        ap (λ o. if ltb s.1 max_cmd_num then o else fault) (further (set s.0 s.1 t, s.1 + 1)))

-- The array whose first commands are replaced.
abbrev pub put_first : List (List ℕ) → List (List ℕ) → List (List ℕ)
put_first [] cmds = cmds
put_first (t ∷ ts) [] = []
put_first (t ∷ ts) (c ∷ cmds) = t ∷ put_first ts cmds

append-one :
    (done : List (List ℕ)) (t : List ℕ) (cmds : List (List ℕ))
    → (done ++ t ∷ []) ++ cmds ≡ done ++ t ∷ cmds
append-one [] t cmds = refl
append-one (d ∷ done) t cmds = ap (λ l. d ∷ l) (append-one done t cmds)

set-behind :
    (done : List (List ℕ)) (c t : List ℕ) (cmds : List (List ℕ))
    → set (done ++ c ∷ cmds) (length done) t ≡ (done ++ t ∷ []) ++ cmds
set-behind [] c t cmds = refl
set-behind (d ∷ done) c t cmds = ap (λ l. d ∷ l) (set-behind done c t cmds)

store_lem :
    (ts done cmds : List (List ℕ))
    → length done + length cmds ≡ max_cmd_num
    → store ts (done ++ cmds, length done) ≡ (
        if leb (length done + length ts) max_cmd_num
        then ok (done ++ put_first ts cmds, length done + length ts)
        else fault)
unfolding store
store_lem [] done cmds e =
    let fits : leb (length done + 0) max_cmd_num ≡ true = ground (arith, e) in
    rw fits (ap (λ n. ok (done ++ cmds, n)) (omega arith))
store_lem (t ∷ ts) done [] e =
    let here : ltb (length done) max_cmd_num ≡ false = ground (arith, e) in
    let over : leb (length done + suc (length ts)) max_cmd_num ≡ false = ground (arith, e) in
    rw (here, over) refl
store_lem (t ∷ ts) done (c ∷ cmds) e =
    let here : ltb (length done) max_cmd_num ≡ true = ground (arith, e) in
    let one : length (done ++ t ∷ []) ≡ length done + 1 = length-append done (t ∷ []) in
    let further = store_lem ts (done ++ t ∷ []) cmds (omega (arith, e, one)) in
    rw here (
      ap (λ l. store ts (l, length done + 1)) (set-behind done c t cmds)
      ∙ ap (λ n. store ts ((done ++ t ∷ []) ++ cmds, n)) (sym one)
      ∙ further
      ∙ ap₂ (λ l n. if leb n max_cmd_num then ok (l, n) else fault)
          (append-one done t (put_first ts cmds)) (omega (arith, one)))

-- A line is words, each behind its delimiter '|' or newline, and what follows the last one. If at most
-- eight of the words have a character, parse_user_input stores these in their order in front of the
-- array, keeps the rest of the array and returns their number; with more of them it writes behind the
-- array.
pub parse_user_input_lem :
    (words : List (List ℕ × ℕ)) (tail : List ℕ) (cmds : List (List ℕ))
    → AreWords command_delim words
    → IsWord command_delim tail
    → length cmds ≡ max_cmd_num
    → parse_user_input (joined words tail) cmds ≡ (
        if leb (length (tokens words tail)) max_cmd_num
        then ok (put_first (tokens words tail) cmds, length (tokens words tail))
        else fault)
unfolding parse_user_input
parse_user_input_lem words tail cmds are is e =
    parse_loop-store words tail (suc (length (joined words tail))) (cmds, 0) are is (omega arith)
    ∙ store_lem (tokens words tail) [] cmds (omega (arith, e))
    ∙ ap (λ n. if leb n max_cmd_num then ok (put_first (tokens words tail) cmds, n) else fault)
        (omega arith)
