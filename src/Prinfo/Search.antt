-- ===== src/Prinfo/Search.antt =====
-- What the loops of hw2/group/cs2456/cs2456_test.c find among the children and siblings.
use cs.Base.{
  ℕ, ◌≤◌, ◌<◌, ◌≡◌, refl, ap, ◌∙◌, Bool, true, false, ◌&&◌, Option, none, some, List, [], ◌∷◌, ltb,
  ◌==◌, if◌then◌else◌, arith, All, inl, inr, ◌⊎◌, Bool-cases, dec_lt,
}
use cs.Prinfo.{above, below, scan_siblings}

abbrev pub has : ℕ → List ℕ → Bool
has a [] = false
has a (b ∷ bs) = if b == a then true else has a bs

-- The smallest of the numbers above `my_pid`.
pub record IsNextAbove (my_pid : ℕ) (pids : List ℕ) (v : ℕ) : Type 0 where
  pub listed : has v pids ≡ true
  pub over : my_pid < v
  pub least : All (λ p. (p ≤ my_pid) ⊎ (v ≤ p)) pids

-- The largest of the numbers below `my_pid`, or 0 where there is none.
pub data IsNextBelow (my_pid : ℕ) (pids : List ℕ) (v : ℕ) : Type 0 where
  nothing : v ≡ 0 → All (λ p. (my_pid ≤ p) ⊎ (p ≡ 0)) pids → IsNextBelow my_pid pids v
  largest :
      has v pids ≡ true
      → v < my_pid
      → All (λ p. (my_pid ≤ p) ⊎ (p ≤ v)) pids
      → IsNextBelow my_pid pids v

-- The loop over the siblings from two values on.
youngest_from : ℕ → ℕ → List ℕ → ℕ
youngest_from my_pid y [] = y
youngest_from my_pid y (p ∷ ps) = youngest_from my_pid (above my_pid p y) ps

oldest_from : ℕ → ℕ → List ℕ → ℕ
oldest_from my_pid o [] = o
oldest_from my_pid o (p ∷ ps) = oldest_from my_pid (below my_pid p o) ps

scan_siblings-from :
    (my_pid y o : ℕ) (ps : List ℕ)
    → scan_siblings my_pid (some y) o ps
      ≡ (some (youngest_from my_pid y ps), oldest_from my_pid o ps)
unfolding scan_siblings youngest_from oldest_from
scan_siblings-from my_pid y o [] = refl
scan_siblings-from my_pid y o (p ∷ ps) =
    scan_siblings-from my_pid (above my_pid p y) (below my_pid p o) ps

-- A start below `my_pid` is never left.
youngest_from-below : (my_pid y : ℕ) (ps : List ℕ) → y ≤ my_pid → youngest_from my_pid y ps ≡ y
unfolding youngest_from
youngest_from-below my_pid y [] le = refl
youngest_from-below my_pid y (p ∷ ps) le =
    let same : above my_pid p y ≡ y = ground arith in
    ap (λ v. youngest_from my_pid v ps) same ∙ youngest_from-below my_pid y ps le

le_or : (a b r : ℕ) → (a < b → r ≤ b) → (b ≤ a) ⊎ (r ≤ b)
le_or a b r h = elim (dec_lt a b) [ yes lt ↦ inr (h lt) | no ge ↦ inl (omega (arith, ge)) ]

youngest_from-above :
    (my_pid y : ℕ) (ps : List ℕ)
    → my_pid < y
    → (my_pid < youngest_from my_pid y ps)
      × (youngest_from my_pid y ps ≤ y)
      × ((youngest_from my_pid y ps ≡ y) ⊎ (has (youngest_from my_pid y ps) ps ≡ true))
      × All (λ p. (p ≤ my_pid) ⊎ (youngest_from my_pid y ps ≤ p)) ps
unfolding youngest_from
youngest_from-above my_pid y [] lt = (lt, omega arith, inl refl, tt)
youngest_from-above my_pid y (p ∷ ps) lt =
    let r = youngest_from my_pid (above my_pid p y) ps in
    let (over, le, found, all) = youngest_from-above my_pid (above my_pid p y) ps (ground arith) in
    let here : (r ≡ y) ⊎ (has r (p ∷ ps) ≡ true) = elim found [
      | inl e ↦ elim (Bool-cases (ltb my_pid p && ltb p y)) [
        | inl new ↦ inr (ground (arith, e, new))
        | inr old ↦ inl (ground (arith, e, old))
      ]
      | inr listed ↦ inr (ground (arith, listed))
    ] in
    (over, ground (arith, le), here, (le_or my_pid p r (λ lt'. ground (arith, le, lt')), all))

oldest_from-below :
    (my_pid o : ℕ) (ps : List ℕ)
    → (o ≤ oldest_from my_pid o ps)
      × ((oldest_from my_pid o ps ≡ o)
          ⊎ ((has (oldest_from my_pid o ps) ps ≡ true) × (oldest_from my_pid o ps < my_pid)))
      × All (λ p. (my_pid ≤ p) ⊎ (p ≤ oldest_from my_pid o ps)) ps
unfolding oldest_from
oldest_from-below my_pid o [] = (omega arith, inl refl, tt)
oldest_from-below my_pid o (p ∷ ps) =
    let r = oldest_from my_pid (below my_pid p o) ps in
    let (le, found, all) = oldest_from-below my_pid (below my_pid p o) ps in
    let here : (r ≡ o) ⊎ ((has r (p ∷ ps) ≡ true) × (r < my_pid)) = elim found [
      | inl e ↦ elim (Bool-cases (ltb p my_pid && ltb o p)) [
        | inl new ↦ inr (ground (arith, e, new), ground (arith, e, new))
        | inr old ↦ inl (ground (arith, e, old))
      ]
      | inr listed ↦ inr (ground (arith, listed.0), listed.1)
    ] in
    let first : (my_pid ≤ p) ⊎ (p ≤ r) = elim (dec_lt p my_pid) [
      | yes lt ↦ inr (ground (arith, le, lt))
      | no ge ↦ inl (omega (arith, ge))
    ] in
    (ground (arith, le), here, (first, all))

nothing_below :
    (my_pid v : ℕ) (ps : List ℕ)
    → v ≡ 0
    → All (λ p. (my_pid ≤ p) ⊎ (p ≤ v)) ps
    → All (λ p. (my_pid ≤ p) ⊎ (p ≡ 0)) ps
nothing_below my_pid v [] e all = tt
nothing_below my_pid v (p ∷ ps) e (this, all) = (
  elim this [ inl le ↦ inl le | inr le ↦ inr (omega (arith, e, le)) ],
  nothing_below my_pid v ps e all,
)

oldest_from-IsNextBelow :
    (my_pid : ℕ) (ps : List ℕ) → IsNextBelow my_pid ps (oldest_from my_pid 0 ps)
oldest_from-IsNextBelow my_pid ps =
    let (le, found, all) = oldest_from-below my_pid 0 ps in
    elim found [
      | inl e ↦ nothing e (nothing_below my_pid (oldest_from my_pid 0 ps) ps e all)
      | inr (listed, lt) ↦ largest listed lt all
    ]

first_or_later :
    (my_pid p : ℕ) (ps : List ℕ)
    → (youngest_from my_pid p ps ≡ p) ⊎ (has (youngest_from my_pid p ps) ps ≡ true)
    → has (youngest_from my_pid p ps) (p ∷ ps) ≡ true
first_or_later my_pid p ps found = elim found [
  | inl e ↦ ground (arith, e)
  | inr l ↦ ground (arith, l)
]

-- What the loop over the siblings finds when it visits `p` first: the largest pid below, or 0; and the
-- smallest pid above if `p` is above, else `p`.
pub data Siblings (my_pid p : ℕ) (ps : List ℕ) (r : Option ℕ × ℕ) : Type 0 where
  right :
      my_pid < p
      → (v o : ℕ) → r ≡ (some v, o)
      → IsNextAbove my_pid (p ∷ ps) v
      → IsNextBelow my_pid (p ∷ ps) o
      → Siblings my_pid p ps r
  stuck :
      p ≤ my_pid
      → (o : ℕ) → r ≡ (some p, o)
      → IsNextBelow my_pid (p ∷ ps) o
      → Siblings my_pid p ps r

-- The loop over the siblings finds the largest pid below the own one. It finds the smallest pid above the own
-- one only if the pid that it visits first is above; otherwise it takes the first pid itself.
pub scan_siblings_lem :
    (my_pid p : ℕ) (ps : List ℕ) → Siblings my_pid p ps (scan_siblings my_pid none 0 (p ∷ ps))
unfolding scan_siblings youngest_from oldest_from
scan_siblings_lem my_pid p ps =
    let run = scan_siblings-from my_pid (above my_pid p p) (below my_pid p 0) ps in
    let start : above my_pid p p ≡ p = ground arith in
    let older = oldest_from-IsNextBelow my_pid (p ∷ ps) in
    elim (dec_lt my_pid p) [
      | yes lt ↦
          (let (over, le, found, all) = youngest_from-above my_pid p ps lt in
            right lt (youngest_from my_pid p ps) (oldest_from my_pid 0 (p ∷ ps))
              (run
                ∙ ap
                    (λ v.
                      (some (youngest_from my_pid v ps), oldest_from my_pid (below my_pid p 0) ps))
                    start)
              (record {
                listed = first_or_later my_pid p ps found;
                over = over;
                least = (inr le, all);
              })
              older)
      | no ge ↦
          stuck (omega (arith, ge)) (oldest_from my_pid 0 (p ∷ ps))
            (run
              ∙ ap
                  (λ v.
                    (some (youngest_from my_pid v ps), oldest_from my_pid (below my_pid p 0) ps))
                  start
              ∙ ap (λ v. (some v, oldest_from my_pid (below my_pid p 0) ps))
                  (youngest_from-below my_pid p ps (omega (arith, ge))))
            older
    ]
