-- ===== src/Rates/Report.antt =====
-- What main of hw1/part_one.c prints without arguments.
use cs.Base.{
  ℕ, zero, suc, ◌+◌, ◌<◌, ◌≡◌, ◌≢◌, refl, sym, ap, ◌∙◌, Bool, true, false, ◌&&◌, some, List, [],
  ◌∷◌, ◌++◌, ◌==◌, if◌then◌else◌, ltb, arith, Bool-cases, inl, inr, length, take, All,
}
use cs.Base.Outcome.{ok}
use cs.Base.Text.{starts_with, until_nul}
use cs.Rates.{max_size}
use cs.Rates.Print.{
  Output, cpu_title, cpu, memory_title, memory, uptime_title, uptime, target, place_of, copy_part,
  printcpu_loop, printuptime, printmem, report,
}

-- No character is `c`.
abbrev pub IsWithout : ℕ → List ℕ → Type 0
IsWithout c text = All (λ d. d ≢ c) text

-- A line without a colon, or with its first one among the first 127 characters.
pub data IsShort (line : List ℕ) : Type 0 where
  plain : IsWithout 58 line → IsShort line
  labelled :
      (label rest : List ℕ)
      → line ≡ label ++ 58 ∷ rest
      → IsWithout 58 label
      → length label < 127
      → IsShort line

-- The lines that start with "model name\t:".
abbrev pub model_lines : List (List ℕ) → List (List ℕ)
model_lines [] = []
model_lines (line ∷ lines) =
    let further = model_lines lines in if starts_with target line then line ∷ further else further

abbrev pub numbered : ℕ → List (List ℕ) → List Output
numbered j [] = []
numbered j (line ∷ lines) = cpu j line ∷ numbered (j + 1) lines

place_of-without : (c i : ℕ) (text : List ℕ) → IsWithout c text → place_of c i text ≡ 0
unfolding place_of
place_of-without c i [] h = refl
place_of-without c i (d ∷ text) h =
    let other : (d == c) ≡ false = ground (arith, h.0) in
    rw other (place_of-without c (i + 1) text h.1)

place_of-first :
    (c i : ℕ) (text rest : List ℕ)
    → IsWithout c text
    → place_of c i (text ++ c ∷ rest) ≡ i + length text
unfolding place_of
place_of-first c i [] rest h = let same : (c == c) ≡ true = ground arith in rw same (omega arith)
place_of-first c i (d ∷ text) rest h =
    let other : (d == c) ≡ false = ground (arith, h.0) in
    rw other (place_of-first c (i + 1) text rest h.1 ∙ omega arith)

take-append : (text rest : List ℕ) → take (length text) (text ++ rest) ≡ text
take-append [] rest = refl
take-append (c ∷ text) rest = ap (λ l. c ∷ l) (take-append text rest)

take-label :
    (c : ℕ) (label rest : List ℕ) → take (length label + 1) (label ++ c ∷ rest) ≡ label ++ c ∷ []
take-label c [] rest = refl
take-label c (d ∷ label) rest =
    let again : length (d ∷ label) + 1 ≡ suc (length label + 1) = omega arith in
    ap (λ n. take n (d ∷ label ++ c ∷ rest)) again ∙ ap (λ l. d ∷ l) (take-label c label rest)

take-IsWithout : (c n : ℕ) (text : List ℕ) → IsWithout c text → IsWithout c (take n text)
take-IsWithout c zero text h = tt
take-IsWithout c (suc n) [] h = tt
take-IsWithout c (suc n) (d ∷ text) h = (h.0, take-IsWithout c n text h.1)

-- A word whose only `c` is its last character.
abbrev EndsAt : ℕ → List ℕ → Type 0
EndsAt c [] = ⊥
EndsAt c (d ∷ []) = d ≡ c
EndsAt c (d ∷ e ∷ word) = (d ≢ c) × EndsAt c (e ∷ word)

starts_with-without :
    (c : ℕ) (word text : List ℕ) → EndsAt c word → IsWithout c text → starts_with word text ≡ false
starts_with-without c [] text at h = absurd at
starts_with-without c (d ∷ word) [] at h = refl
starts_with-without c (d ∷ []) (x ∷ text) at h =
    let other : (d == x) ≡ false = ground (arith, at, h.0) in rw other refl
starts_with-without c (d ∷ e ∷ word) (x ∷ text) at h =
    rw (starts_with-without c (e ∷ word) text at.1 h.1) (no_matter (d == x))
  where
    no_matter : (b : Bool) → (b && false) ≡ false
    no_matter true = refl
    no_matter false = refl

starts_with-label :
    (c : ℕ) (word label rest : List ℕ)
    → EndsAt c word
    → starts_with word (label ++ c ∷ []) ≡ starts_with word (label ++ c ∷ rest)
starts_with-label c [] label rest at = absurd at
starts_with-label c (d ∷ []) [] rest at = refl
starts_with-label c (d ∷ []) (x ∷ label) rest at = refl
starts_with-label c (d ∷ e ∷ word) [] rest at =
    let other : (d == c) ≡ false = ground (arith, at.0) in rw other refl
starts_with-label c (d ∷ e ∷ word) (x ∷ label) rest at =
    ap (λ b. (d == x) && b) (starts_with-label c (e ∷ word) label rest at.1)

target-EndsAt : EndsAt 58 target
target-EndsAt = ground arith

-- What printcpu copies of a line, and what its test finds there.
copied :
    (line : List ℕ)
    → IsShort line
    → (part : List ℕ) × (copy_part (place_of 58 0 line + 1) line ≡ ok part)
      × (starts_with target part ≡ starts_with target line)
unfolding copy_part
copied line (plain h) = (
  take 1 line,
  rw (place_of-without 58 0 line h) refl,
  starts_with-without 58 target (take 1 line) target-EndsAt (take-IsWithout 58 1 line h)
      ∙ sym (starts_with-without 58 target line target-EndsAt h),
)
copied line (labelled label rest e h short) =
    let fits : ltb (length label + 1) max_size ≡ true = ground (arith, short) in
    let place : place_of 58 0 line + 1 ≡ length label + 1 =
      ap (λ l. place_of 58 0 l + 1) e
      ∙ ap (λ n. n + 1) (place_of-first 58 0 label rest h)
      ∙ omega arith in
    (
      label ++ 58 ∷ [],
      rw (place, fits)
          (ap (λ l. ok (take (length label + 1) l)) e ∙ ap ok (take-label 58 label rest)),
      starts_with-label 58 target label rest target-EndsAt ∙ ap (starts_with target) (sym e),
    )

printcpu_loop_lem :
    (j : ℕ) (lines : List (List ℕ))
    → All IsShort lines
    → printcpu_loop j lines ≡ ok (numbered j (model_lines lines))
unfolding printcpu_loop
printcpu_loop_lem j [] h = refl
printcpu_loop_lem j (line ∷ lines) h =
    let (part, copy, same) = copied line h.0 in
    elim (Bool-cases (starts_with target line)) [
      | inl b ↦ rw (copy, same, b) (rw (printcpu_loop_lem (j + 1) lines h.1) refl)
      | inr b ↦ rw (copy, same, b) (rw (printcpu_loop_lem j lines h.1) refl)
    ]

until_nul-without : (text : List ℕ) → IsWithout 0 text → until_nul text ≡ text
until_nul-without [] h = refl
until_nul-without (c ∷ text) h =
    let other : (c == 0) ≡ false = ground (arith, h.0) in
    rw other (ap (λ l. c ∷ l) (until_nul-without text h.1))

printuptime_lem :
    (text rest : List ℕ)
    → IsWithout 32 text
    → IsWithout 0 text
    → length text < max_size
    → printuptime (text ++ 32 ∷ rest) ≡ ok (uptime_title ∷ uptime text ∷ [])
unfolding printuptime copy_part
printuptime_lem text rest no_blank no_nul short =
    let fits : ltb (length text) max_size ≡ true = ground (arith, short) in
    let place : place_of 32 0 (text ++ 32 ∷ rest) ≡ length text =
      place_of-first 32 0 text rest no_blank ∙ omega arith in
    rw (place, fits, take-append text (32 ∷ rest), until_nul-without text no_nul) refl

-- Where all three files can be opened, every line of /proc/cpuinfo has its first colon among its first
-- 127 characters or has none, /proc/meminfo has a line, and the uptime is a word of less than 128
-- characters, without a blank or a 0, before a blank: main without arguments prints its three titles
-- with exactly the lines of /proc/cpuinfo that start with "model name\t:", numbered from 0 in their
-- order, the first line of /proc/meminfo, and the first word of /proc/uptime.
pub report_lem :
    (lines more : List (List ℕ)) (mem_line text rest : List ℕ)
    → All IsShort lines
    → IsWithout 32 text
    → IsWithout 0 text
    → length text < max_size
    → report (some lines) (some (mem_line ∷ more)) (some (text ++ 32 ∷ rest))
      ≡ ok (
          cpu_title ∷ numbered 0 (model_lines lines)
          ++ (memory_title ∷ memory mem_line ∷ [])
          ++ (uptime_title ∷ uptime text ∷ []))
unfolding report printmem
report_lem lines more mem_line text rest short no_blank no_nul fits =
    rw (printcpu_loop_lem 0 lines short, printuptime_lem text rest no_blank no_nul fits) refl
