-- ===== src/Shell/Line/Background.antt =====
-- What is_pipe_bg and delete_bg_character of hw1/part_two.c do to a line.
use cs.Base.{
  ℕ, zero, suc, ◌<◌, ◌≡◌, ◌≢◌, refl, Bool, true, false, List, ◌==◌, get_or, set, length, arith,
  Bool-cases, inl, inr,
}
use cs.Shell.Line.{ampersand, blank_char, delete_below, delete_bg_character, bg_below, is_pipe_bg}

-- The two results for the part of a line below `n`: there is no mark, or the last one is at `k`.
pub data Background (line : List ℕ) (n : ℕ) (is_bg : Bool) (deleted : List ℕ) : Type 0 where
  foreground :
      ((j : ℕ) → j < n → get_or line j 0 ≢ ampersand)
      → is_bg ≡ false
      → deleted ≡ line
      → Background line n is_bg deleted
  background :
      (k : ℕ)
      → k < n
      → get_or line k 0 ≡ ampersand
      → ((j : ℕ) → k < j → j < n → get_or line j 0 ≢ ampersand)
      → is_bg ≡ true
      → deleted ≡ set line k blank_char
      → Background line n is_bg deleted

Background-suc :
    (line : List ℕ) (n : ℕ) (is_bg : Bool) (deleted : List ℕ)
    → get_or line n 0 ≢ ampersand
    → Background line n is_bg deleted
    → Background line (suc n) is_bg deleted
Background-suc line n is_bg deleted other (foreground absent b d) =
    foreground (λ j lt e. ground (arith, absent j, other)) b d
Background-suc line n is_bg deleted other (background k lt mark absent b d) =
    background k (omega arith) mark (λ j after lt' e. ground (arith, absent j after, other)) b d

below-Background :
    (line : List ℕ) (n : ℕ) → Background line n (bg_below n line) (delete_below n line)
unfolding bg_below delete_below
below-Background line zero = foreground (λ j lt e. omega arith) refl refl
below-Background line (suc n) = elim (Bool-cases (get_or line n 0 == ampersand)) [
  | inl e ↦
      rw e (background n (omega arith) (ground arith) (λ j after lt e'. omega arith) refl refl)
  | inr e ↦ rw e (Background-suc line n _ _ (ground arith) (below-Background line n))
]

-- For every line: if it has no ampersand, is_pipe_bg says no and delete_bg_character leaves the line as
-- it is; else is_pipe_bg says yes and delete_bg_character puts a blank in place of the last one.
pub delete_bg_character_lem :
    (line : List ℕ) → Background line (length line) (is_pipe_bg line) (delete_bg_character line)
unfolding is_pipe_bg delete_bg_character
delete_bg_character_lem line = below-Background line (length line)
