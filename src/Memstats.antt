-- ===== src/Memstats.antt =====
-- The page reference statistics of hw5: the timer and the system call of memstats.c (below), and the ageing
-- policy in vmscan.c (Policy). test_bit and TestClearPageReferenced of the kernel return the old value of the
-- bit, 0 or 1.
pub mod Policy
pub mod Scan
pub mod Report
pub mod Timer
pub mod Shrink
pub mod Lives
mod Tests
use cs.Base.{ℕ, zero, suc, ◌+◌, ◌%◌, ◌^◌, Bool, true, false, List, [], ◌∷◌, ltb, if◌then◌else◌}
use cs.Base.Outcome.{Outcome, ok, ◌>>=◌, int_inc}

-- What the code reads and writes of a `struct page`: its reference counter, the flags PG_lru,
-- PG_referenced and PG_active, and what page_mapped and PageAnon say of it.
pub record Page : Type 0 where
  pub ref_cnt : ℕ
  pub lru : Bool
  pub referenced : Bool
  pub active : Bool
  pub mapped : Bool
  pub anon : Bool

-- A zone: its two lists from the first page to the last, and the memory around the head of the active list,
-- read as if the head stood in a page.
pub record Zone : Type 0 where
  pub active_list : List Page
  pub inactive_list : List Page
  pub around_head : Page

-- The globals of memstats.c, the zones, and the time for which `timer1` is set.
pub record Stats : Type 0 where
  pub zones : List Zone
  pub num_active_to_inactive : ℕ
  pub num_inactive_to_free : ℕ
  pub i : ℕ
  pub expires : ℕ

-- `unsigned long` and `long` have 32 bits; a number is the bit pattern.
abbrev pub ulong : ℕ → ℕ
ulong n = n % 2 ^ 32

abbrev pub bit : Bool → ℕ
bit true = 1
bit false = 0

-- `ref_bit = TestClearPageReferenced(page); if (page->ref_cnt + ref_bit > 0) { … }`, and if the branch is
-- taken.
unfoldable pub add_ref_bit : Page → Page × Bool
add_ref_bit p =
    let sum = ulong (p.ref_cnt + bit p.referenced) in
    if ltb 0 sum
    then (record p { referenced = false; ref_cnt = sum }, true)
    else (record p { referenced = false }, false)

-- The body of both loops of the timer: a page off the LRU lists is passed over.
unfoldable pub visit : Page → Page × Bool
unfolding add_ref_bit
visit p = if p.lru then add_ref_bit p else (p, false)

-- `num_…_modified++` if the branch was taken.
abbrev pub count : Bool → ℕ → ℕ
count modified n = if modified then ulong (n + 1) else n

-- The loop over the active list, with `num_active_modified`.
unfoldable pub scan_active : List Page → ℕ → List Page × ℕ
unfolding visit
scan_active [] modified = ([], modified)
scan_active (p ∷ ps) modified =
    let (q, counted) = visit p in
    let (qs, total) = scan_active ps (count counted modified) in (q ∷ qs, total)

-- The loop over the inactive list reads its page through `pos1`, which stands on the head of the active list.
unfoldable pub scan_inactive : List Page → Page → ℕ → Page × ℕ
unfolding visit
scan_inactive [] around modified = (around, modified)
scan_inactive (p ∷ ps) around modified =
    let (around', counted) = visit around in scan_inactive ps around' (count counted modified)

-- One zone, with the two numbers that are printed.
unfoldable pub scan_zone : Zone → Zone × (ℕ × ℕ)
unfolding scan_active scan_inactive
scan_zone z =
    let (active, num_active) = scan_active z.active_list 0 in
    let (around, num_inactive) = scan_inactive z.inactive_list z.around_head 0 in
    (record z { active_list = active; around_head = around }, (num_active, num_inactive))

unfoldable pub scan_zones : List Zone → List Zone × List (ℕ × ℕ)
unfolding scan_zone
scan_zones [] = ([], [])
scan_zones (z ∷ zs) =
    let (z', printed) = scan_zone z in
    let (zs', printed') = scan_zones zs in (z' ∷ zs', printed ∷ printed')

-- timer1_routine, which sets its timer again.
unfoldable pub timer1_routine : ℕ → ℕ → Stats → Outcome (Stats × List (ℕ × ℕ))
unfolding scan_zones
timer1_routine jiffies hz s = do
  let (zones, printed) = scan_zones s.zones
  i ← int_inc s.i
  ok (record s { zones = zones; i = i; expires = ulong (jiffies + hz) }, printed)

unfoldable pub initialize_global : Stats → Stats
initialize_global s = record s { num_active_to_inactive = 0; num_inactive_to_free = 0 }

-- One loop of sys_memstats: the pages and the reference bits that are set.
unfoldable pub count_pages : List Page → ℕ → ℕ → ℕ × ℕ
count_pages [] n bits = (n, bits)
count_pages (p ∷ ps) n bits = count_pages ps (ulong (n + 1)) (ulong (bits + bit p.referenced))

-- The four counters of sys_memstats, over the zones.
pub record Counters : Type 0 where
  pub active_count : ℕ
  pub inactive_count : ℕ
  pub active_ref_bit_count : ℕ
  pub inactive_ref_bit_count : ℕ

unfoldable pub count_zones : List Zone → Counters → Counters
unfolding count_pages
count_zones [] c = c
count_zones (z ∷ zs) c =
    let (active, active_bits) = count_pages z.active_list c.active_count c.active_ref_bit_count in
    let (inactive, inactive_bits) =
      count_pages z.inactive_list c.inactive_count c.inactive_ref_bit_count in
    count_zones zs (record {
      active_count = active;
      inactive_count = inactive;
      active_ref_bit_count = active_bits;
      inactive_ref_bit_count = inactive_bits;
    })

-- sys_memstats: the numbers that it prints.
unfoldable pub sys_memstats : Stats → Counters × ℕ × ℕ
unfolding count_zones
sys_memstats s = (
  count_zones s.zones (record {
    active_count = 0;
    inactive_count = 0;
    active_ref_bit_count = 0;
    inactive_ref_bit_count = 0;
  }),
  s.num_active_to_inactive,
  s.num_inactive_to_free,
)
