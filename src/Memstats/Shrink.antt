-- ===== src/Memstats/Shrink.antt =====
-- What shrink_active_list of hw5/vmscan.c makes of the pages.
use cs.Base.{
  ℕ, ◌+◌, ◌-◌, ◌≡◌, refl, ap, ap₂, ◌∙◌, Bool, true, false, ◌&&◌, ◌||◌, not, List, [], ◌∷◌, ◌++◌,
  map, ltb, ◌==◌, if◌then◌else◌, arith, All, length, Bool-cases, inl, inr,
}
use cs.Base.Outcome.{ok}
use cs.Memstats.{Page, Zone, ulong, add_ref_bit}
use cs.Memstats.Scan.{IsCounter, collected, add_ref_bit-collected}
use cs.Memstats.Policy.{
  cs2456_page_referenced, judge, share_out, move_inactive, move_active, shrink_active_list,
}

-- A mapped page is spared whatever its counter: mapped pages are not reclaimed, or it is anonymous and there
-- is no swap space.
abbrev pub is_spared : Bool → ℕ → Page → Bool
is_spared reclaim_mapped total_swap_pages p =
    not reclaim_mapped || ((total_swap_pages == 0) && p.anon)

abbrev pub stays : Bool → ℕ → Page → Bool
stays reclaim_mapped total_swap_pages p =
    p.mapped && (is_spared reclaim_mapped total_swap_pages p || ltb 0 p.ref_cnt)

-- A page that is not spared pays with one reference.
abbrev pub paid : Bool → ℕ → Page → Page
paid reclaim_mapped total_swap_pages p =
    if is_spared reclaim_mapped total_swap_pages p then p else record p { ref_cnt = p.ref_cnt - 1 }

abbrev pub staying : Bool → ℕ → List Page → List Page
staying r swap [] = []
staying r swap (p ∷ ps) =
    if stays r swap (collected p)
    then paid r swap (collected p) ∷ staying r swap ps
    else staying r swap ps

abbrev pub leaving : Bool → ℕ → List Page → List Page
leaving r swap [] = []
leaving r swap (p ∷ ps) =
    if stays r swap (collected p) then leaving r swap ps else collected p ∷ leaving r swap ps

-- A page that isolate_pages has taken off the active list.
abbrev pub IsIsolated : Page → Type 0
IsIsolated p = (p.lru ≡ false) × (p.active ≡ true)

one_test :
    (m s c : Bool) (x y : Page)
    → ◌≡◌ {A = Page × Bool}
        (if m then (if s then (x, true) else (if c then (y, true) else (x, false))) else (x, false))
        (if m && (s || c) then (if s then x else y, true) else (x, false))
one_test false s c x y = refl
one_test true true c x y = refl
one_test true false true x y = refl
one_test true false false x y = refl

judge_lem :
    (r : Bool) (swap : ℕ) (p : Page)
    → ◌≡◌ {A = Page × Bool}
        (judge r swap p)
        (if stays r swap p then (paid r swap p, true) else (p, false))
unfolding judge cs2456_page_referenced
judge_lem r swap p =
    one_test p.mapped (is_spared r swap p) (ltb 0 p.ref_cnt) p
      (record p { ref_cnt = p.ref_cnt - 1 })

put_on : Page × Bool → List Page × List Page → List Page × List Page
put_on (q, true) (l_active, l_inactive) = (q ∷ l_active, l_inactive)
put_on (q, false) (l_active, l_inactive) = (l_active, q ∷ l_inactive)

put_on_if :
    (b : Bool) (x y : Page) (l_active l_inactive : List Page)
    → put_on (if b then (x, true) else (y, false)) (l_active, l_inactive)
      ≡ (if b then x ∷ l_active else l_active, if b then l_inactive else y ∷ l_inactive)
unfolding put_on
put_on_if true x y l_active l_inactive = refl
put_on_if false x y l_active l_inactive = refl

if-put_on :
    (j : Page × Bool) (out : List Page × List Page)
    → (if j.1 then (j.0 ∷ out.0, out.1) else (out.0, j.0 ∷ out.1)) ≡ put_on j out
unfolding put_on
if-put_on (q, true) (l_active, l_inactive) = refl
if-put_on (q, false) (l_active, l_inactive) = refl

pub share_out_lem :
    (r : Bool) (swap : ℕ) (ps : List Page)
    → All IsCounter ps
    → share_out r swap ps ≡ (staying r swap ps, leaving r swap ps)
unfolding share_out
share_out_lem r swap [] all = refl
share_out_lem r swap (p ∷ ps) (lt, all) =
    if-put_on (judge r swap ((add_ref_bit p).0)) (share_out r swap ps)
    ∙ ap₂ (λ q out. put_on q out)
        (ap (judge r swap) (add_ref_bit-collected p lt) ∙ judge_lem r swap (collected p))
        (share_out_lem r swap ps all)
    ∙ put_on_if (stays r swap (collected p)) (paid r swap (collected p)) (collected p)
        (staying r swap ps) (leaving r swap ps)

-- The page on the list that the loops put it on.
abbrev pub on_active : Page → Page
on_active p = record p { lru = true }

abbrev pub on_inactive : Page → Page
on_inactive p = record p { lru = true; active = false }

move_inactive_lem :
    (ps inactive : List Page)
    → All IsIsolated ps
    → move_inactive ps inactive ≡ ok (map on_inactive ps ++ inactive, length ps)
unfolding move_inactive
move_inactive_lem [] inactive all = refl
move_inactive_lem (p ∷ ps) inactive ((off, on), all) =
    rw (move_inactive_lem ps inactive all, off, on)
      (ap (λ n. ok (on_inactive p ∷ map on_inactive ps ++ inactive, n)) {x = length ps + 1}
        (omega arith))

move_active_lem :
    (ps active : List Page)
    → All IsIsolated ps
    → move_active ps active ≡ ok (map on_active ps ++ active)
unfolding move_active
move_active_lem [] active all = refl
move_active_lem (p ∷ ps) active ((off, on), all) = rw (move_active_lem ps active all, off, on) refl

paid-IsIsolated : (r : Bool) (swap : ℕ) (p : Page) → IsIsolated p → IsIsolated (paid r swap p)
paid-IsIsolated r swap p h = elim (Bool-cases (is_spared r swap p)) [
  | inl e ↦ rw e h
  | inr e ↦ rw e h
]

staying-IsIsolated :
    (r : Bool) (swap : ℕ) (ps : List Page) → All IsIsolated ps → All IsIsolated (staying r swap ps)
staying-IsIsolated r swap [] all = tt
staying-IsIsolated r swap (p ∷ ps) (this, all) =
    let rest = staying-IsIsolated r swap ps all in
    elim (Bool-cases (stays r swap (collected p))) [
      | inl e ↦ rw e (paid-IsIsolated r swap (collected p) this, rest)
      | inr e ↦ rw e rest
    ]

leaving-IsIsolated :
    (r : Bool) (swap : ℕ) (ps : List Page) → All IsIsolated ps → All IsIsolated (leaving r swap ps)
leaving-IsIsolated r swap [] all = tt
leaving-IsIsolated r swap (p ∷ ps) (this, all) =
    let rest = leaving-IsIsolated r swap ps all in
    elim (Bool-cases (stays r swap (collected p))) [ inl e ↦ rw e rest | inr e ↦ rw e (this, rest) ]

-- With pages that have been taken off the lists and counters of 32 bits, shrink_active_list does not
-- run into one of its VM_BUG_ONs. Every page has its reference bit moved into its counter. The mapped
-- pages that are spared or have a positive counter go in front of the active list, in their order, and
-- pay with one reference where they are not spared; the others go in front of the inactive list and are
-- added to num_active_to_inactive, modulo 2^32.
pub shrink_active_list_lem :
    (r : Bool) (swap : ℕ) (ps : List Page) (z : Zone) (n : ℕ)
    → All IsIsolated ps
    → All IsCounter ps
    → shrink_active_list r swap ps z n
      ≡ ok (
        record z {
          active_list = map on_active (staying r swap ps) ++ z.active_list;
          inactive_list = map on_inactive (leaving r swap ps) ++ z.inactive_list;
        },
        ulong (n + length (leaving r swap ps)),
      )
unfolding shrink_active_list
shrink_active_list_lem r swap ps z n isolated counters =
    rw
      (
        share_out_lem r swap ps counters,
        move_inactive_lem (leaving r swap ps) z.inactive_list
            (leaving-IsIsolated r swap ps isolated),
        move_active_lem (staying r swap ps) z.active_list (staying-IsIsolated r swap ps isolated),
      )
      refl
