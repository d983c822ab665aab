-- ===== src/Memstats/Scan.antt =====
-- What a run of the timer in hw5/memstats.c does to the pages.
use cs.Base.{
  ℕ, ◌+◌, ◌<◌, ◌≤◌, ◌≡◌, refl, ap, ap₂, Bool, true, false, List, [], ◌∷◌, map, ltb, if◌then◌else◌,
  arith, All, min, Bool-cases, inl, inr,
}
use cs.Memstats.{
  Page, Zone, ulong, bit, add_ref_bit, visit, count, scan_active, scan_zone, scan_zones,
}

-- A page whose reference bit is moved into the counter, which stops at 2^32 - 1.
abbrev pub collected : Page → Page
collected p = record p {
  referenced = false;
  ref_cnt = min (p.ref_cnt + bit p.referenced) 4294967295;
}

-- A page after a tick: on an LRU list it is collected.
abbrev pub tick : Page → Page
tick p = if p.lru then collected p else p

abbrev pub IsCounter : Page → Type 0
IsCounter p = p.ref_cnt < 4294967296

abbrev pub Ticked : List Zone → List Zone → Type 0
Ticked [] [] = Unit
Ticked [] (z' ∷ zs') = ⊥
Ticked (z ∷ zs) [] = ⊥
Ticked (z ∷ zs) (z' ∷ zs') =
    (z'.active_list ≡ map tick z.active_list) × (z'.inactive_list ≡ z.inactive_list) × Ticked zs zs'

-- `ulong` of a sum of a counter and a bit is the sum, or 0 where the sum is 2^32.
ulong-min :
    (n r : ℕ)
    → n ≤ r + 1
    → r ≤ n
    → r < 4294967296
    → ltb 0 (ulong n) ≡ true
    → ulong n ≡ min n 4294967295
ulong-min n r up down lt e = grind arith

ulong-full :
    (n r : ℕ) → n ≤ r + 1 → r ≤ n → r < 4294967296 → ltb 0 (ulong n) ≡ false → r ≡ min n 4294967295
ulong-full n r up down lt e = grind arith

bit-le_one : (b : Bool) → bit b ≤ 1
bit-le_one true = omega arith
bit-le_one false = omega arith

if_first :
    (b : Bool) (x : Page × Bool) (x' y : Page)
    → x.0 ≡ x'
    → (if b then x else (y, false)).0 ≡ (if b then x' else y)
if_first true x x' y e = e
if_first false x x' y e = refl

pub add_ref_bit-collected : (p : Page) → IsCounter p → (add_ref_bit p).0 ≡ collected p
unfolding add_ref_bit
add_ref_bit-collected p lt =
    let n = p.ref_cnt + bit p.referenced in
    let le = bit-le_one p.referenced in
    let up : n ≤ p.ref_cnt + 1 = omega (arith, le) in
    let down : p.ref_cnt ≤ n = omega arith in
    elim (Bool-cases (ltb 0 (ulong n))) [
      | inl e ↦ rw e (
          ap (λ c. record p { referenced = false; ref_cnt = c })
            (ulong-min n p.ref_cnt up down lt e))
      | inr e ↦ rw e (
          ap (λ c. record p { referenced = false; ref_cnt = c })
            (ulong-full n p.ref_cnt up down lt e))
    ]

visit-tick : (p : Page) → IsCounter p → (visit p).0 ≡ tick p
unfolding visit
visit-tick p lt = if_first p.lru (add_ref_bit p) (collected p) p (add_ref_bit-collected p lt)

scan_active-tick : (ps : List Page) (n : ℕ) → All IsCounter ps → (scan_active ps n).0 ≡ map tick ps
unfolding scan_active
scan_active-tick [] n all = refl
scan_active-tick (p ∷ ps) n (lt, all) =
    ap₂ (λ q qs. q ∷ qs) (visit-tick p lt) (scan_active-tick ps (count ((visit p).1) n) all)

abbrev pub AllCounters : List Zone → Type 0
AllCounters = All (λ z. All IsCounter z.active_list)

pub scan_zones-Ticked : (zs : List Zone) → AllCounters zs → Ticked zs (scan_zones zs).0
unfolding scan_zones scan_zone
scan_zones-Ticked [] all = tt
scan_zones-Ticked (z ∷ zs) (here, all) =
    (scan_active-tick z.active_list 0 here, refl, scan_zones-Ticked zs all)
