-- ===== src/Shell/Line.antt =====
-- The background mark of a command line in hw1/part_two.c: is_pipe_bg and delete_bg_character. A line
-- is its characters before the 0 byte, as their codes.
pub mod Background
mod Tests
use cs.Base.{ℕ, zero, suc, Bool, true, false, List, ◌==◌, if◌then◌else◌, get_or, set, length}

-- '&'
abbrev pub ampersand : ℕ
ampersand = 38

-- ' '
abbrev pub blank_char : ℕ
blank_char = 32

-- The loop of delete_bg_character, below index `i`.
unfoldable pub delete_below : ℕ → List ℕ → List ℕ
delete_below zero line = line
delete_below (suc i) line =
    let further = delete_below i line in
    if get_or line i 0 == ampersand then set line i blank_char else further

unfoldable pub delete_bg_character : List ℕ → List ℕ
unfolding delete_below
delete_bg_character line = delete_below (length line) line

-- The loop of is_pipe_bg, below index `i`.
unfoldable pub bg_below : ℕ → List ℕ → Bool
bg_below zero line = false
bg_below (suc i) line =
    let further = bg_below i line in if get_or line i 0 == ampersand then true else further

unfoldable pub is_pipe_bg : List ℕ → Bool
unfolding bg_below
is_pipe_bg line = bg_below (length line) line
