-- ===== src/Memstats/Tests.antt =====
-- Runs of the page reference statistics of hw5.
use cs.Base.{◌≡◌, refl, true, false, none, some, List, ℕ, [], ◌∷◌, arith}
use cs.Base.Outcome.{ok, fault}
use cs.Memstats.{Page, Zone, Stats, timer1_routine}
use cs.Memstats.Policy.{shrink_active_list}
use cs.Memstats.Timer.{IsTick, timer1_routine_lem}
use cs.Memstats.Shrink.{shrink_active_list_lem}
use cs.Memstats.Lives.{unused, after_scans, after_scans_lem}

abbrev used : Page
used = record {
  ref_cnt = 2;
  lru = true;
  referenced = true;
  active = true;
  mapped = true;
  anon = false;
}

abbrev full : Page
full = record used { ref_cnt = 4294967295 }

abbrev off_list : Page
off_list = record used { lru = false }

abbrev idle_page : Page
idle_page = record {
  ref_cnt = 0;
  lru = true;
  referenced = false;
  active = false;
  mapped = true;
  anon = true;
}

abbrev zone : Zone
zone = record {
  active_list = used ∷ full ∷ off_list ∷ [];
  inactive_list = used ∷ idle_page ∷ [];
  around_head = idle_page;
}

abbrev stats : Stats
stats = record {
  zones = zone ∷ zone ∷ [];
  num_active_to_inactive = 5;
  num_inactive_to_free = 7;
  i = 3;
  expires = 0;
}

timer1_routine_lem_example :
    (s' : Stats) × (printed : List (ℕ × ℕ)) × (timer1_routine 1000 250 stats ≡ ok (s', printed))
    × IsTick 1000 250 stats s'
timer1_routine_lem_example = timer1_routine_lem 1000 250 stats (omega arith) (
  (omega arith, (omega arith, (omega arith, tt))),
  ((omega arith, (omega arith, (omega arith, tt))), tt),
)

-- The reference bit of the used inactive page is not collected, and no inactive page is counted.
inactive_missed :
    timer1_routine 1000 250 (record stats { zones = zone ∷ [] })
    ≡ ok (
      record stats {
        zones =
            record zone {
              active_list =
                  record used { ref_cnt = 3; referenced = false }
                  ∷ record full { referenced = false }
                  ∷ off_list
                  ∷ [];
            }
            ∷ [];
        i = 4;
        expires = 1250;
      },
      (1, 0) ∷ [],
    )
unfolding timer1_routine
inactive_missed = refl

abbrev taken : Page
taken = record used { lru = false }

abbrev unreferenced : Page
unreferenced = record taken { ref_cnt = 0; referenced = false }

shrink_active_list_lem_example :
    shrink_active_list true 9 (taken ∷ unreferenced ∷ []) zone 5
    ≡ ok (
      record zone {
        active_list = record used { referenced = false } ∷ zone.active_list;
        inactive_list = record unreferenced { lru = true; active = false } ∷ zone.inactive_list;
      },
      6,
    )
shrink_active_list_lem_example =
    shrink_active_list_lem true 9 (taken ∷ unreferenced ∷ []) zone 5
      ((refl, refl), ((refl, refl), tt)) (omega arith, (omega arith, tt))

-- A page that is still on an LRU list is a bug.
listed_twice : shrink_active_list true 9 (used ∷ []) zone 5 ≡ fault
unfolding shrink_active_list
listed_twice = refl

after_scans_lem_example : after_scans 9 3 (some (unused false true false 2)) ≡ none
after_scans_lem_example = after_scans_lem 9 3 false true false 2 refl (omega arith)
