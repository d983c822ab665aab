-- ===== src/Prinfo/Family.antt =====
-- The name that hw2/group/cs2456/cs2456_test.c copies, and what its loop over the children finds.
use cs.Base.{
  ℕ, zero, suc, ◌+◌, ◌≤◌, ◌<◌, ◌≡◌, refl, ap, ap₂, ◌∙◌, true, false, none, some, List, [], ◌∷◌,
  ◌++◌, ltb, ◌==◌, if◌then◌else◌, Bool-cases, arith, All, length, inl, inr, ◌⊎◌,
}
use cs.Base.Outcome.{ok}
use cs.Prinfo.{Child, wrap, copy_comm, scan_children}
use cs.Prinfo.Search.{has}

pub drop : ℕ → List ℕ → List ℕ
drop zero xs = xs
drop (suc n) [] = []
drop (suc n) (x ∷ xs) = drop n xs

-- A name that ends inside of both arrays is copied with its 0, and nothing behind it changes.
pub copy_comm_lem :
    (name rest to : List ℕ)
    → All (λ c. (c == 0) ≡ false) name
    → length name < length to
    → copy_comm (name ++ 0 ∷ rest) to ≡ ok (name ++ 0 ∷ drop (suc (length name)) to)
unfolding copy_comm drop
copy_comm_lem [] rest [] all lt = absurd (omega arith)
copy_comm_lem [] rest (d ∷ to) all lt = refl
copy_comm_lem (c ∷ name) rest [] all lt = absurd (omega arith)
copy_comm_lem (c ∷ name) rest (d ∷ to) (this, all) lt =
    rw (this, copy_comm_lem name rest to all (omega arith)) refl

wrap-wrap_add : (a b : ℕ) → wrap (wrap a + b) ≡ wrap (a + b)
wrap-wrap_add a b = omega arith

wrap-add_assoc : (a b c : ℕ) → wrap ((a + b) + c) ≡ wrap (a + (b + c))
wrap-add_assoc a b c = ap wrap (omega arith)

zero_plus : (a : ℕ) → 0 + a ≡ a
zero_plus a = omega arith

wrap-add_zero : (a : ℕ) → wrap a ≡ wrap (a + 0)
wrap-add_zero a = omega arith

pub sum_of : (Child → ℕ) → List Child → ℕ
sum_of time [] = 0
sum_of time (c ∷ cs) = time c + sum_of time cs

pub pids_of : List Child → List ℕ
pids_of [] = []
pids_of (c ∷ cs) = c.pid ∷ pids_of cs

-- The smallest of the pids.
pub record IsSmallest (pids : List ℕ) (v : ℕ) : Type 0 where
  pub listed : has v pids ≡ true
  pub least : All (λ p. v ≤ p) pids

smaller : ℕ → ℕ → ℕ
smaller p y = if ltb p y then p else y

some-smaller : (p y : ℕ) → (if ltb p y then some p else some y) ≡ some (smaller p y)
unfolding smaller
some-smaller p y = elim (Bool-cases (ltb p y)) [ inl e ↦ rw e refl | inr e ↦ rw e refl ]

smallest_from : ℕ → List ℕ → ℕ
smallest_from y [] = y
smallest_from y (p ∷ ps) = smallest_from (smaller p y) ps

smallest_from-listed :
    (y : ℕ) (ps : List ℕ)
    → ((smallest_from y ps ≡ y) ⊎ (has (smallest_from y ps) ps ≡ true))
      × (smallest_from y ps ≤ y)
      × All (λ p. smallest_from y ps ≤ p) ps
unfolding smallest_from smaller
smallest_from-listed y [] = (inl refl, omega arith, tt)
smallest_from-listed y (p ∷ ps) =
    let r = smallest_from (smaller p y) ps in
    let (found, le, all) = smallest_from-listed (smaller p y) ps in
    let here : (r ≡ y) ⊎ (has r (p ∷ ps) ≡ true) = elim found [
      | inl e ↦ elim (Bool-cases (ltb p y)) [
        | inl new ↦ inr (ground (arith, e, new))
        | inr old ↦ inl (ground (arith, e, old))
      ]
      | inr l ↦ inr (ground (arith, l))
    ] in
    (here, ground (arith, le), (ground (arith, le), all))

scan_children-from :
    (y u s : ℕ) (cs : List Child)
    → scan_children (some y) (wrap u) (wrap s) cs ≡ (
      some (smallest_from y (pids_of cs)),
      wrap (u + sum_of (λ c. c.utime) cs),
      wrap (s + sum_of (λ c. c.stime) cs),
    )
unfolding scan_children smallest_from smaller pids_of sum_of
scan_children-from y u s [] = ap₂ (λ a b. (some y, a, b)) (wrap-add_zero u) (wrap-add_zero s)
scan_children-from y u s (c ∷ cs) =
    let u' = sum_of (λ d. d.utime) cs in
    let s' = sum_of (λ d. d.stime) cs in
    let v = smallest_from (smaller c.pid y) (pids_of cs) in
    ap (λ o. scan_children o (wrap (wrap u + c.utime)) (wrap (wrap s + c.stime)) cs)
      (some-smaller c.pid y)
    ∙ ap₂ (λ a b. scan_children (some (smaller c.pid y)) a b cs) (wrap-wrap_add u c.utime)
        (wrap-wrap_add s c.stime)
    ∙ scan_children-from (smaller c.pid y) (u + c.utime) (s + c.stime) cs
    ∙ ap₂ (λ a b. (some v, a, b)) (wrap-add_assoc u c.utime u') (wrap-add_assoc s c.stime s')

-- The loop over the children adds up their times modulo 2^32 and finds the smallest of their pids.
pub scan_children_lem :
    (c : Child) (cs : List Child)
    → (v : ℕ) × (scan_children none 0 0 (c ∷ cs)
        ≡ (some v, wrap (sum_of (λ c. c.utime) (c ∷ cs)), wrap (sum_of (λ c. c.stime) (c ∷ cs))))
      × IsSmallest (pids_of (c ∷ cs)) v
unfolding scan_children smallest_from smaller pids_of sum_of
scan_children_lem c cs = (
  smallest_from c.pid (pids_of cs),
  ap₂ (λ a b. scan_children (some c.pid) (wrap a) (wrap b) cs) (zero_plus c.utime)
        (zero_plus c.stime)
      ∙ scan_children-from c.pid c.utime c.stime cs,
  (let (found, le, all) = smallest_from-listed c.pid (pids_of cs) in
      record {
        listed = elim found [ inl e ↦ ground (arith, e) | inr l ↦ ground (arith, l) ];
        least = (le, all);
      }),
)
