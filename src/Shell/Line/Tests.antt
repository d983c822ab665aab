-- ===== src/Shell/Line/Tests.antt =====
-- Runs of is_pipe_bg and delete_bg_character of hw1/part_two.c.
use cs.Base.{ℕ, ◌≡◌, refl, true, List, [], ◌∷◌, length}
use cs.Shell.Line.{delete_below, delete_bg_character, bg_below, is_pipe_bg}
use cs.Shell.Line.Background.{Background, delete_bg_character_lem}

-- "a&b& "
abbrev two_marks : List ℕ
two_marks = 97 ∷ 38 ∷ 98 ∷ 38 ∷ 32 ∷ []

delete_bg_character-two_marks : delete_bg_character two_marks ≡ 97 ∷ 38 ∷ 98 ∷ 32 ∷ 32 ∷ []
unfolding delete_bg_character delete_below
delete_bg_character-two_marks = refl

is_pipe_bg-two_marks : is_pipe_bg two_marks ≡ true
unfolding is_pipe_bg bg_below
is_pipe_bg-two_marks = refl

delete_bg_character_lem_example :
    Background two_marks (length two_marks) (is_pipe_bg two_marks) (delete_bg_character two_marks)
delete_bg_character_lem_example = delete_bg_character_lem two_marks
