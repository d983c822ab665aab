-- ===== src/Rates/Tests.antt =====
-- Runs of hw1/part_one.c.
use cs.Base.{ℕ, ◌≤◌, ◌≡◌, refl, ap, none, some, List, [], ◌∷◌, ◌++◌, arith}
use cs.Base.Int.{ℤ, pos, negsuc}
use cs.Base.Outcome.{ok, int_max}
use cs.Rates.{
  Rate, Scans, Files, myrate, sda_word, ctxt_word, processes_word, disk_loop, stat_line, stat_loop,
  sectors, getinfo_round, getinfo,
}
use cs.Rates.Counters.{Totals, Reads}
use cs.Rates.Drift.{drifted, getinfo_drifts}
use cs.Rates.Print.{cpu_title, cpu, memory_title, memory, uptime_title, uptime, target, report}
use cs.Rates.Report.{plain, labelled, report_lem}

-- Lines of one character after the name: its code is the number that sscanf stores.
abbrev read_number : List ℕ → ℤ
read_number [] = negsuc 0
read_number (n ∷ line) = pos n

-- A number, then the name.
abbrev read_name : List ℕ → List ℕ
read_name [] = []
read_name (n ∷ line) = line

abbrev reading : Scans
reading = record {
  disk = λ line d. record {
    disk_name = read_name line;
    n_read_sectors = read_number line;
    n_write_sectors = pos 0;
  };
  stat = λ line v. record { str_name = read_name line; n_number = read_number line };
  old_disk = record { disk_name = []; n_read_sectors = pos 0; n_write_sectors = pos 0 };
  old_stat = record { str_name = []; n_number = pos 0 };
}

-- Files in which the three totals are `n`, with another disk and another line before them.
abbrev files_of : ℕ → Files
files_of n = record {
  diskstats = some ((3 ∷ 114 ∷ []) ∷ (n ∷ sda_word) ∷ []);
  stat = some ((5 ∷ 99 ∷ 112 ∷ 117 ∷ []) ∷ (n ∷ ctxt_word) ∷ (n ∷ processes_word) ∷ []);
}

abbrev totals : ℕ → Totals
totals n = record { sector = n; context = n; process = n }

abbrev all_counters : ℕ → Rate
all_counters n = record { n_sector_rw = pos n; n_contex_s = pos n; n_process_c = pos n }

-- Totals 100, 110 and 130: the third round leaves 120, where 20 were added since the second.
getinfo-three_rounds :
    getinfo reading (files_of 100 ∷ files_of 110 ∷ files_of 130 ∷ []) myrate
    ≡ ok (some (all_counters 120))
unfolding getinfo getinfo_round sectors disk_loop stat_loop stat_line
getinfo-three_rounds = refl

getinfo-no_file : getinfo reading (record { diskstats = none; stat = none } ∷ []) myrate ≡ ok none
unfolding getinfo getinfo_round
getinfo-no_file = refl

files_of-Reads : (n : ℕ) → n ≤ int_max → Reads reading (files_of n) (totals n)
files_of-Reads n small = record {
  lines = (3 ∷ 114 ∷ []) ∷ (n ∷ sda_word) ∷ [];
  stats = (5 ∷ 99 ∷ 112 ∷ 117 ∷ []) ∷ (n ∷ ctxt_word) ∷ (n ∷ processes_word) ∷ [];
  disk = record { disk_name = sda_word; n_read_sectors = pos n; n_write_sectors = pos 0 };
  has_lines = refl;
  has_stats = refl;
  found = refl;
  sum = ap pos (omega arith);
  contexts = refl;
  processes = refl;
  small_sector = small;
  small_context = small;
  small_process = small;
}

getinfo_drifts_example :
    (r : Rate) × (getinfo reading (files_of 100 ∷ []) myrate ≡ ok (some r))
    × (getinfo reading (files_of 100 ∷ files_of 110 ∷ files_of 130 ∷ []) myrate
        ≡ ok (some (drifted r (totals 110) (totals 130))))
getinfo_drifts_example =
    getinfo_drifts reading (files_of 100 ∷ []) (totals 100 ∷ []) (files_of 110) (files_of 130)
      (totals 110) (totals 130) (files_of-Reads 100 (omega arith), tt)
      (files_of-Reads 110 (omega arith)) (files_of-Reads 130 (omega arith))
      (
        record { sector = omega arith; context = omega arith; process = omega arith },
        (
          record { sector = omega arith; context = omega arith; process = omega arith },
          (record { sector = omega arith; context = omega arith; process = omega arith }, tt),
        ),
      )

-- "model name\t"
abbrev label : List ℕ
label = 109 ∷ 111 ∷ 100 ∷ 101 ∷ 108 ∷ 32 ∷ 110 ∷ 97 ∷ 109 ∷ 101 ∷ 9 ∷ []

-- "ab", "model name\t: x" and "model name\t:"
abbrev cpu_lines : List (List ℕ)
cpu_lines = (97 ∷ 98 ∷ []) ∷ (target ++ 32 ∷ 120 ∷ []) ∷ target ∷ []

report_lem_example :
    report (some cpu_lines) (some ((77 ∷ 58 ∷ []) ∷ [])) (some (49 ∷ 46 ∷ 32 ∷ 50 ∷ 0 ∷ []))
    ≡ ok (
        cpu_title
        ∷ cpu 0 (target ++ 32 ∷ 120 ∷ [])
        ∷ cpu 1 target
        ∷ memory_title
        ∷ memory (77 ∷ 58 ∷ [])
        ∷ uptime_title
        ∷ uptime (49 ∷ 46 ∷ [])
        ∷ [])
report_lem_example =
    report_lem cpu_lines [] (77 ∷ 58 ∷ []) (49 ∷ 46 ∷ []) (50 ∷ 0 ∷ [])
      (
        plain (ground arith),
        (
          labelled label (32 ∷ 120 ∷ []) refl (ground arith) (omega arith),
          (labelled label [] refl (ground arith) (omega arith), tt),
        ),
      )
      (ground arith) (ground arith) (omega arith)
