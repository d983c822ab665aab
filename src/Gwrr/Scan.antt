-- ===== src/Gwrr/Scan.antt =====
-- The search for the largest current weight in hw4/sched_gwrr.c, and the credit of a group list.
use cs.Base.{
  ℕ, zero, suc, ◌+◌, ◌≤◌, ◌<◌, ◌≡◌, ◌≢◌, inl, inr, refl, Option, none, some, List, [], ◌∷◌, ltb,
  ◌==◌, if◌then◌else◌, get_elem?, arith, All, Bool-cases,
}
use cs.Gwrr.{Group, scan}

-- The sum of the current weights.
abbrev pub total_credit : List Group → ℕ
total_credit [] = 0
total_credit (g ∷ gs) = g.curr_weight + total_credit gs

-- The current weight of the groups of one gid.
abbrev pub credit : ℕ → List Group → ℕ
credit d [] = 0
credit d (g ∷ gs) = (if g.gid == d then g.curr_weight else 0) + credit d gs

-- The weight of the groups of one gid.
abbrev pub share : ℕ → List Group → ℕ
share d [] = 0
share d (g ∷ gs) = (if g.gid == d then g.weight else 0) + share d gs

-- The group at a place has the largest current weight, above 0.
pub record IsHeaviest (gs : List Group) (i : ℕ) (g : Group) : Type 0 where
  pub there : get_elem? gs i ≡ some g
  pub positive : 0 < g.curr_weight
  pub largest : All (λ h. h.curr_weight ≤ g.curr_weight) gs

-- What `scan` finds from place `i` on: nothing above `max`, or the largest.
data Found (i max : ℕ) (at : Option ℕ) (gs : List Group) (out : ℕ × Option ℕ) : Type 0 where
  nothing : out ≡ (max, at) → All (λ h. h.curr_weight ≤ max) gs → Found i max at gs out
  heavier :
      (k : ℕ) (g : Group)
      → get_elem? gs k ≡ some g
      → max < g.curr_weight
      → All (λ h. h.curr_weight ≤ g.curr_weight) gs
      → out ≡ (g.curr_weight, some (i + k))
      → Found i max at gs out

All-le_trans :
    (a b : ℕ) (gs : List Group)
    → a ≤ b
    → All (λ h. h.curr_weight ≤ a) gs
    → All (λ h. h.curr_weight ≤ b) gs
All-le_trans a b [] le h = tt
All-le_trans a b (g ∷ gs) le h = (omega arith, All-le_trans a b gs le h.1)

Found-keep :
    (i max : ℕ) (at : Option ℕ) (g : Group) (gs : List Group) (out : ℕ × Option ℕ)
    → g.curr_weight ≤ max
    → Found (i + 1) max at gs out
    → Found i max at (g ∷ gs) out
Found-keep i max at g gs out le (nothing e small) = nothing e (le, small)
Found-keep i max at g gs out le (heavier k h there gt big e) =
    heavier (suc k) h there gt (omega arith, big) (ground arith)

Found-replace :
    (i max : ℕ) (at : Option ℕ) (g : Group) (gs : List Group) (out : ℕ × Option ℕ)
    → max < g.curr_weight
    → Found (i + 1) g.curr_weight (some i) gs out
    → Found i max at (g ∷ gs) out
Found-replace i max at g gs out gt (nothing e small) =
    heavier 0 g refl gt (omega arith, small) (ground arith)
Found-replace i max at g gs out gt (heavier k h there gt' big e) =
    heavier (suc k) h there (omega arith) (omega arith, big) (ground arith)

scan-Found : (i max : ℕ) (at : Option ℕ) (gs : List Group) → Found i max at gs (scan i max at gs)
unfolding scan
scan-Found i max at [] = nothing refl tt
scan-Found i max at (g ∷ gs) = elim (Bool-cases (ltb max g.curr_weight)) [
  | inl gt ↦
      rw gt (
        Found-replace i max at g gs _ (ground arith) (scan-Found (i + 1) g.curr_weight (some i) gs))
  | inr le ↦ rw le (Found-keep i max at g gs _ (ground arith) (scan-Found (i + 1) max at gs))
]

total_credit-zero : (gs : List Group) → All (λ h. h.curr_weight ≤ 0) gs → total_credit gs ≡ 0
total_credit-zero [] h = refl
total_credit-zero (g ∷ gs) h = omega (arith, total_credit-zero gs h.1)

-- With credit left the search finds a group with the largest current weight.
pub scan_lem :
    (gs : List Group)
    → total_credit gs ≢ 0
    → (i : ℕ) × (g : Group) × (scan 0 0 none gs ≡ (g.curr_weight, some i)) × IsHeaviest gs i g
scan_lem gs some_credit = go (scan 0 0 none gs) (scan-Found 0 0 none gs)
  where
    go :
        (out : ℕ × Option ℕ)
        → Found 0 0 none gs out
        → (i : ℕ) × (g : Group) × (out ≡ (g.curr_weight, some i)) × IsHeaviest gs i g
    go out (nothing e small) = absurd (some_credit (total_credit-zero gs small))
    go out (heavier k g there gt big e) =
        (k, g, ground arith, record { there = there; positive = gt; largest = big })

get-le :
    (k : ℕ) (g : Group) (gs : List Group)
    → get_elem? gs k ≡ some g
    → g.curr_weight ≤ total_credit gs
get-le k g [] h = cc
get-le zero g (x ∷ gs) h = ground arith
get-le (suc k) g (x ∷ gs) h = omega (arith, get-le k g gs h)

-- With none left it finds nothing.
pub scan-none : (gs : List Group) → total_credit gs ≡ 0 → scan 0 0 none gs ≡ (0, none)
scan-none gs e = go (scan 0 0 none gs) (scan-Found 0 0 none gs)
  where
    go : (out : ℕ × Option ℕ) → Found 0 0 none gs out → out ≡ (0, none)
    go out (nothing eq small) = eq
    go out (heavier k g there gt big eq) = absurd (omega (arith, get-le k g gs there))
