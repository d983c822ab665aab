-- ===== src/Memstats/Policy.antt =====
-- The changes of hw5/vmscan.c: cs2456_page_referenced, and shrink_active_list from the pages that it
-- has taken off the active list on. A loop that takes the last page of a list and puts it in front of
-- another one runs from the tail of its list.
use cs.Base.{
  ℕ, ◌+◌, ◌-◌, Bool, true, false, ◌&&◌, ◌||◌, not, List, [], ◌∷◌, ltb, ◌==◌, if◌then◌else◌,
}
use cs.Base.Outcome.{Outcome, ok, fault, ◌>>=◌}
use cs.Memstats.{Page, Zone, ulong, add_ref_bit}

unfoldable pub cs2456_page_referenced : Page → Page × Bool
cs2456_page_referenced p =
    if ltb 0 p.ref_cnt then (record p { ref_cnt = p.ref_cnt - 1 }, true) else (p, false)

-- What becomes of a page: `true` for `l_active`. The last test is made only if the first two fail.
unfoldable pub judge : Bool → ℕ → Page → Page × Bool
unfolding cs2456_page_referenced
judge reclaim_mapped total_swap_pages p =
    if p.mapped
    then (if not reclaim_mapped || ((total_swap_pages == 0) && p.anon)
        then (p, true)
        else cs2456_page_referenced p)
    else (p, false)

-- `while (!list_empty(&l_hold))`: what it puts on `l_active` and `l_inactive`.
unfoldable pub share_out : Bool → ℕ → List Page → List Page × List Page
unfolding add_ref_bit judge
share_out reclaim_mapped total_swap_pages [] = ([], [])
share_out reclaim_mapped total_swap_pages (p ∷ ps) =
    let (l_active, l_inactive) = share_out reclaim_mapped total_swap_pages ps in
    let (q, stays) = judge reclaim_mapped total_swap_pages ((add_ref_bit p).0) in
    if stays then (q ∷ l_active, l_inactive) else (l_active, q ∷ l_inactive)

-- `while (!list_empty(&l_inactive))`: the inactive list, and `pgdeactivate`.
unfoldable pub move_inactive : List Page → List Page → Outcome (List Page × ℕ)
move_inactive [] inactive = ok (inactive, 0)
move_inactive (p ∷ ps) inactive = do
  (moved, pgmoved) ← move_inactive ps inactive
  if p.lru || not p.active
      then fault
      else ok (record p { lru = true; active = false } ∷ moved, pgmoved + 1)

-- `while (!list_empty(&l_active))`.
unfoldable pub move_active : List Page → List Page → Outcome (List Page)
move_active [] active = ok active
move_active (p ∷ ps) active = do
  moved ← move_active ps active
  if p.lru || not p.active then fault else ok (record p { lru = true } ∷ moved)

-- shrink_active_list on a zone, once `l_hold` is taken off: the zone, and num_active_to_inactive.
unfoldable pub shrink_active_list : Bool → ℕ → List Page → Zone → ℕ → Outcome (Zone × ℕ)
unfolding share_out move_inactive move_active
shrink_active_list reclaim_mapped total_swap_pages l_hold z num_active_to_inactive = do
  let (l_active, l_inactive) = share_out reclaim_mapped total_swap_pages l_hold
  (inactive, pgdeactivate) ← move_inactive l_inactive z.inactive_list
  active ← move_active l_active z.active_list
  ok (
    record z { active_list = active; inactive_list = inactive },
    ulong (num_active_to_inactive + pgdeactivate),
  )
