-- ===== src/Memstats/Timer.antt =====
-- A run of timer1_routine of hw5/memstats.c as a whole, and what sys_memstats reports after it.
use cs.Base.{
  ℕ, suc, ◌+◌, ◌<◌, ◌≡◌, refl, ap, ap₂, ◌∙◌, List, [], ◌∷◌, ◌++◌, map, if◌then◌else◌, length,
  lt→ltb, Bool-cases, inl, inr,
}
use cs.Base.Outcome.{ok, int_max}
use cs.Memstats.{Page, Zone, Stats, ulong, bit, scan_zones, timer1_routine, sys_memstats}
use cs.Memstats.Scan.{tick, Ticked, AllCounters, scan_zones-Ticked}
use cs.Memstats.Report.{all_active, all_inactive, ref_bits, report, sys_memstats-report}

-- The reference bits of the pages that are on no LRU list.
abbrev pub off_lru_bits : List Page → ℕ
off_lru_bits [] = 0
off_lru_bits (p ∷ ps) = (if p.lru then 0 else bit p.referenced) + off_lru_bits ps

tick-bit : (p : Page) → bit ((tick p).referenced) ≡ (if p.lru then 0 else bit p.referenced)
tick-bit p = elim (Bool-cases p.lru) [ inl e ↦ rw e refl | inr e ↦ rw e refl ]

ref_bits-map-tick : (ps : List Page) → ref_bits (map tick ps) ≡ off_lru_bits ps
ref_bits-map-tick [] = refl
ref_bits-map-tick (p ∷ ps) = ap₂ (λ a b. a + b) (tick-bit p) (ref_bits-map-tick ps)

length-map-tick : (ps : List Page) → length (map tick ps) ≡ length ps
length-map-tick [] = refl
length-map-tick (p ∷ ps) = ap suc (length-map-tick ps)

map-append_tick : (ps qs : List Page) → map tick ps ++ map tick qs ≡ map tick (ps ++ qs)
map-append_tick [] qs = refl
map-append_tick (p ∷ ps) qs = ap (λ l. tick p ∷ l) (map-append_tick ps qs)

Ticked-active : (zs zs' : List Zone) → Ticked zs zs' → all_active zs' ≡ map tick (all_active zs)
Ticked-active [] [] h = refl
Ticked-active [] (z' ∷ zs') h = absurd h
Ticked-active (z ∷ zs) [] h = absurd h
Ticked-active (z ∷ zs) (z' ∷ zs') (active, inactive, h) =
    ap₂ (λ a b. a ++ b) active (Ticked-active zs zs' h)
    ∙ map-append_tick z.active_list (all_active zs)

Ticked-inactive : (zs zs' : List Zone) → Ticked zs zs' → all_inactive zs' ≡ all_inactive zs
Ticked-inactive [] [] h = refl
Ticked-inactive [] (z' ∷ zs') h = absurd h
Ticked-inactive (z ∷ zs) [] h = absurd h
Ticked-inactive (z ∷ zs) (z' ∷ zs') (active, inactive, h) =
    ap₂ (λ a b. a ++ b) inactive (Ticked-inactive zs zs' h)

report-Ticked :
    (zs zs' : List Zone)
    → Ticked zs zs'
    → report zs'
      ≡ record (report zs) { active_ref_bit_count = ulong (off_lru_bits (all_active zs)) }
report-Ticked zs zs' h =
    let active = Ticked-active zs zs' h in
    rw
      (
        active,
        Ticked-inactive zs zs' h,
        length-map-tick (all_active zs),
        ref_bits-map-tick (all_active zs),
      )
      refl

-- What a run of the timer leaves.
pub record IsTick (jiffies hz : ℕ) (s s' : Stats) : Type 0 where
  pub ticked : Ticked s.zones s'.zones
  pub set_again : s'.expires ≡ ulong (jiffies + hz)
  pub reported : sys_memstats s' ≡ (
    record (report s.zones) { active_ref_bit_count = ulong (off_lru_bits (all_active s.zones)) },
    s.num_active_to_inactive,
    s.num_inactive_to_free,
  )

-- While its run number fits in an int, and with reference counters of 32 bits, the timer runs to its
-- end. On every active page that is on an LRU list it moves the reference bit into the counter, which
-- stops at 2^32 - 1; it changes no inactive page, and it sets itself again. sys_memstats then reports
-- the same numbers as it would have before, except that of the active pages only those on no LRU list
-- have a reference bit left.
pub timer1_routine_lem :
    (jiffies hz : ℕ) (s : Stats)
    → s.i < int_max
    → AllCounters s.zones
    → (s' : Stats) × (printed : List (ℕ × ℕ)) × (timer1_routine jiffies hz s ≡ ok (s', printed))
      × IsTick jiffies hz s s'
unfolding timer1_routine
timer1_routine_lem jiffies hz s lt all =
    let zs' = (scan_zones s.zones).0 in
    let s' : Stats = record s { zones = zs'; i = s.i + 1; expires = ulong (jiffies + hz) } in
    let ticked = scan_zones-Ticked s.zones all in
    (
      s',
      (scan_zones s.zones).1,
      rw (lt→ltb s.i int_max lt) refl,
      record {
        ticked = ticked;
        set_again = refl;
        reported =
            sys_memstats-report s'
            ∙ ap (λ c. (c, s.num_active_to_inactive, s.num_inactive_to_free))
                (report-Ticked s.zones zs' ticked);
      },
    )
