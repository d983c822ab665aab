-- ===== src/Shell/Parse/Loop.antt =====
-- Loops that call strtok_r until it returns NULL, as both parsers of hw1/part_two.c do: they handle the
-- words of their string in order.
use cs.Base.{
  ℕ, zero, suc, ◌<◌, ◌≡◌, refl, sym, ap, ◌∙◌, Option, none, some, List, [], ◌∷◌, ◌++◌, length,
  arith,
}
use cs.Shell.Parse.{strtok_r}
use cs.Shell.Parse.Tokens.{
  joined, tokens, IsWord, AreWords, strtok_r-word, strtok_r-last, strtok_r-skip, strtok_r-none,
  length-joined_rest,
}

-- `body` is the body of the loop, given the rest of the loop; `handle` is what should become of the words.
module _ {S : Type 0} {R : Type 0} (delim : List ℕ)
    (body : Option (List ℕ × List ℕ) → (List ℕ → S → R) → S → R) (loop : ℕ → List ℕ → S → R)
    (handle : List (List ℕ) → S → R)
    (round : (fuel : ℕ) (ptr : List ℕ) (s : S)
      → loop (suc fuel) ptr s ≡ body (strtok_r delim ptr) (loop fuel) s)
    (at_end : (again : List ℕ → S → R) (s : S) → body none again s ≡ handle [] s)
    (at_word : (t rest : List ℕ) (again : List ℕ → S → R) (ts : List (List ℕ)) (s : S)
      → ((s : S) → again rest s ≡ handle ts s)
      → body (some (t, rest)) again s ≡ handle (t ∷ ts) s) where
  found :
      (fuel : ℕ) (ptr : List ℕ) (s : S) {o : Option (List ℕ × List ℕ)}
      → strtok_r delim ptr ≡ o
      → loop (suc fuel) ptr s ≡ body o (loop fuel) s
  found fuel ptr s e = round fuel ptr s ∙ ap (λ o. body o (loop fuel) s) e

  pub loop-tokens :
      (words : List (List ℕ × ℕ)) (tail : List ℕ) (fuel : ℕ) (s : S)
      → AreWords delim words
      → IsWord delim tail
      → length (joined words tail) < fuel
      → loop fuel (joined words tail) s ≡ handle (tokens words tail) s
  loop-tokens words tail zero s are is lt = absurd (omega arith)
  loop-tokens [] [] (suc fuel) s are is lt =
      found fuel [] s (strtok_r-none delim) ∙ at_end (loop fuel) s
  loop-tokens [] (c ∷ w) (suc zero) s are is lt = absurd (omega arith)
  loop-tokens [] (c ∷ w) (suc (suc fuel)) s are is lt =
      found (suc fuel) (c ∷ w) s (strtok_r-last delim c w is)
      ∙ at_word (c ∷ w) [] (loop (suc fuel)) [] s
          (λ s'. found fuel [] s' (strtok_r-none delim) ∙ at_end (loop fuel) s')
  loop-tokens (([], d) ∷ words) tail (suc fuel) s (is_w, (is_d, are)) is lt =
      found fuel (d ∷ joined words tail) s (strtok_r-skip delim d (joined words tail) is_d)
      ∙ sym (found fuel (joined words tail) s refl)
      ∙ loop-tokens words tail (suc fuel) s are is (omega (arith, lt))
  loop-tokens ((c ∷ w, d) ∷ words) tail (suc fuel) s (is_w, (is_d, are)) is lt =
      let shorter : length (joined words tail) < fuel =
        omega (arith, lt, length-joined_rest w d words tail) in
      found fuel ((c ∷ w) ++ d ∷ joined words tail) s
        (strtok_r-word delim c w d (joined words tail) is_w is_d)
      ∙ at_word (c ∷ w) (joined words tail) (loop fuel) (tokens words tail) s
          (λ s'. loop-tokens words tail fuel s' are is shorter)
