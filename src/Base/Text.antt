-- ===== src/Base/Text.antt =====
-- C strings as sequences of character codes: literals, their end, and the comparison with strncmp.
use Prim.Native.Nat.{ℕ}
use Prim.Native.Char.{code}
use Prim.Native.String.{String}
use mathlib.Core.Bool.{Bool, true, false, ◌&&◌}
use mathlib.Core.List.{List, [], ◌∷◌}
use cs.Base.Tests.{◌==◌, if◌then◌else◌}

-- `strncmp(s,word,strlen(word)) == 0`
abbrev pub starts_with : List ℕ → List ℕ → Bool
starts_with [] s = true
starts_with (c ∷ word) [] = false
starts_with (c ∷ word) (d ∷ s) = (c == d) && starts_with word s

-- A C string ends at its 0.
abbrev pub until_nul : List ℕ → List ℕ
until_nul [] = []
until_nul (c ∷ text) = let further = until_nul text in if c == 0 then [] else c ∷ further

-- A literal of ASCII characters.
abbrev pub codes : String → List ℕ
codes String.[] = []
codes (String.◌∷◌ c s) = code c ∷ codes s
