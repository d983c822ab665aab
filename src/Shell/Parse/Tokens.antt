-- ===== src/Shell/Parse/Tokens.antt =====
-- What strtok_r finds in a string that is written as words, each behind its delimiter.
use cs.Base.{
  ℕ, ◌≡◌, refl, ap, true, false, none, some, List, [], ◌∷◌, ◌++◌, All, length, arith, ◌<◌,
  length-append,
}
use cs.Shell.Parse.{is_in, skip, cut, strtok_r}

-- Words with the delimiter behind each, and what follows the last one. Every string can be written so.
abbrev pub joined : List (List ℕ × ℕ) → List ℕ → List ℕ
joined [] tail = tail
joined ((w, d) ∷ words) tail = w ++ d ∷ joined words tail

-- The words that have a character.
abbrev pub add_word : List ℕ → List (List ℕ) → List (List ℕ)
add_word [] ts = ts
add_word (c ∷ w) ts = (c ∷ w) ∷ ts

abbrev pub tokens : List (List ℕ × ℕ) → List ℕ → List (List ℕ)
tokens [] tail = add_word tail []
tokens ((w, d) ∷ words) tail = add_word w (tokens words tail)

abbrev pub IsWord : List ℕ → List ℕ → Type 0
IsWord delim w = All (λ c. is_in delim c ≡ false) w

abbrev pub AreWords : List ℕ → List (List ℕ × ℕ) → Type 0
AreWords delim [] = Unit
AreWords delim ((w, d) ∷ words) = IsWord delim w × ((is_in delim d ≡ true) × AreWords delim words)

cut-append :
    (delim w : List ℕ) (d : ℕ) (s : List ℕ)
    → IsWord delim w
    → is_in delim d ≡ true
    → cut delim (w ++ d ∷ s) ≡ (w, s)
unfolding cut
cut-append delim [] d s all e = rw e refl
cut-append delim (c ∷ w) d s (this, all) e = rw (this, cut-append delim w d s all e) refl

cut_all : (delim w : List ℕ) → IsWord delim w → cut delim w ≡ (w, [])
unfolding cut
cut_all delim [] all = refl
cut_all delim (c ∷ w) (this, all) = rw (this, cut_all delim w all) refl

-- A word behind no delimiter is found, with what is behind its own.
pub strtok_r-word :
    (delim : List ℕ) (c : ℕ) (w : List ℕ) (d : ℕ) (s : List ℕ)
    → IsWord delim (c ∷ w)
    → is_in delim d ≡ true
    → strtok_r delim ((c ∷ w) ++ d ∷ s) ≡ some (c ∷ w, s)
unfolding strtok_r skip
strtok_r-word delim c w d s all e = rw (all.0) (ap some (cut-append delim (c ∷ w) d s all e))

pub strtok_r-last :
    (delim : List ℕ) (c : ℕ) (w : List ℕ)
    → IsWord delim (c ∷ w)
    → strtok_r delim (c ∷ w) ≡ some (c ∷ w, [])
unfolding strtok_r skip
strtok_r-last delim c w all = rw (all.0) (ap some (cut_all delim (c ∷ w) all))

pub strtok_r-skip :
    (delim : List ℕ) (d : ℕ) (s : List ℕ)
    → is_in delim d ≡ true
    → strtok_r delim (d ∷ s) ≡ strtok_r delim s
unfolding strtok_r skip
strtok_r-skip delim d s e = rw e refl

pub strtok_r-none : (delim : List ℕ) → strtok_r delim [] ≡ none
unfolding strtok_r skip
strtok_r-none delim = refl

pub length-joined_rest :
    (w : List ℕ) (d : ℕ) (words : List (List ℕ × ℕ)) (tail : List ℕ)
    → length (joined words tail) < length (w ++ d ∷ joined words tail)
length-joined_rest w d words tail = omega (arith, length-append w (d ∷ joined words tail))
