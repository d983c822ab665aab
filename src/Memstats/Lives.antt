-- ===== src/Memstats/Lives.antt =====
-- How many scans of shrink_active_list of hw5/vmscan.c a page survives that nobody uses any more.
use cs.Base.{
  ℕ, zero, suc, ◌+◌, ◌-◌, ◌<◌, ◌≡◌, refl, ap, ◌∙◌, Bool, true, false, ◌&&◌, Option, none, some,
  List, [], ◌∷◌, leb, ltb, ◌==◌, Bool-cases, inl, inr, if◌then◌else◌, arith, min,
}
use cs.Memstats.{Page}
use cs.Memstats.Policy.{share_out}
use cs.Memstats.Shrink.{share_out_lem}

-- A mapped page whose reference bit is not set.
abbrev pub unused : Bool → Bool → Bool → ℕ → Page
unused lru active anon n = record {
  ref_cnt = n;
  lru = lru;
  referenced = false;
  active = active;
  mapped = true;
  anon = anon;
}

abbrev pub first_page : List Page → Option Page
first_page [] = none
first_page (p ∷ ps) = some p

-- The page on the active list after a number of scans, if it is still there.
pub after_scans : ℕ → ℕ → Option Page → Option Page
after_scans swap zero p = p
after_scans swap (suc k) none = none
after_scans swap (suc k) (some p) =
    after_scans swap k (first_page ((share_out true swap (p ∷ [])).0))

gone : (swap k : ℕ) → after_scans swap k none ≡ none
unfolding after_scans
gone swap zero = refl
gone swap (suc k) = refl

one_scan :
    (swap : ℕ) (lru active anon : Bool) (n : ℕ)
    → ((swap == 0) && anon) ≡ false
    → n < 4294967296
    → first_page ((share_out true swap (unused lru active anon n ∷ [])).0)
      ≡ (if ltb 0 n then some (unused lru active anon (n - 1)) else none)
one_scan swap lru active anon n reclaimed lt =
    let same : min (n + 0) 4294967295 ≡ n = omega (arith, lt) in
    ap (λ out. first_page out.0) (share_out_lem true swap (unused lru active anon n ∷ []) (lt, tt))
    ∙ elim (Bool-cases (ltb 0 n)) [
      | inl e ↦ rw (reclaimed, same, e) refl
      | inr e ↦ rw (reclaimed, same, e) refl
    ]

-- With reclaim_mapped set, and a reference counter of 32 bits: a mapped page that is not used any
-- more, and that is not anonymous or could be written to swap space, survives exactly as many scans of
-- shrink_active_list as its counter holds references.
pub after_scans_lem :
    (swap k : ℕ) (lru active anon : Bool) (n : ℕ)
    → ((swap == 0) && anon) ≡ false
    → n < 4294967296
    → after_scans swap k (some (unused lru active anon n))
      ≡ (if leb k n then some (unused lru active anon (n - k)) else none)
unfolding after_scans
after_scans_lem swap zero lru active anon n reclaimed lt =
    let all : leb 0 n ≡ true = ground arith in
    let same : n - 0 ≡ n = omega arith in rw (all, same) refl
after_scans_lem swap (suc k) lru active anon n reclaimed lt =
    let scan = one_scan swap lru active anon n reclaimed lt in
    elim (Bool-cases (ltb 0 n)) [
      | inl e ↦
          (let here : leb k (n - 1) ≡ leb (suc k) n = ground (arith, e) in
            let less : n - 1 - k ≡ n - suc k = omega arith in
            ap (after_scans swap k) (scan ∙ rw e refl)
            ∙ after_scans_lem swap k lru active anon (n - 1) reclaimed (omega (arith, lt))
            ∙ rw (here, less) refl)
      | inr e ↦
          (let over : leb (suc k) n ≡ false = ground (arith, e) in
            ap (after_scans swap k) (scan ∙ rw e refl) ∙ gone swap k ∙ rw over refl)
    ]
