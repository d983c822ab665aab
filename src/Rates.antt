-- ===== src/Rates.antt =====
-- hw1/part_one.c: the report on the machine, and the threads that read /proc and print rates. A file is
-- the lines that fgets or getline give, `none` if it cannot be opened. What sscanf stores is a
-- parameter: a function of a line and of what the variables had before it.
pub mod Counters
pub mod Drift
pub mod Print
pub mod Report
mod Tests
use cs.Base.{
  ℕ, zero, suc, ◌+◌, Bool, true, false, Option, none, some, List, [], ◌∷◌, ◌==◌, if◌then◌else◌, ltb,
  get_elem?,
}
use cs.Base.Int.{ℤ, negsuc, eq_ℤ, ◌+ℤ◌, ◌-ℤ◌, to_int}
use cs.Base.Outcome.{Outcome, ok, fault, ◌>>=◌, deref}
use cs.Base.Text.{starts_with}

abbrev pub max_size : ℕ
max_size = 128

-- `rate`, without its two intervals.
pub record Rate : Type 0 where
  pub n_sector_rw : ℤ
  pub n_contex_s : ℤ
  pub n_process_c : ℤ

-- `myrate` at the start of the threads.
abbrev pub myrate : Rate
myrate = record { n_sector_rw = negsuc 0; n_contex_s = negsuc 0; n_process_c = negsuc 0 }

-- `disk_name`, `n_read_sectors` and `n_write_sectors`
pub record Disk : Type 0 where
  pub disk_name : List ℕ
  pub n_read_sectors : ℤ
  pub n_write_sectors : ℤ

-- `str_name` and `n_number`
pub record Stat : Type 0 where
  pub str_name : List ℕ
  pub n_number : ℤ

-- The two calls of sscanf in getinfo, and what its variables have before the first line.
pub record Scans : Type 0 where
  pub disk : List ℕ → Disk → Disk
  pub stat : List ℕ → Stat → Stat
  pub old_disk : Disk
  pub old_stat : Stat

-- "sda", "ctxt" and "processes"
abbrev pub sda_word : List ℕ
sda_word = 115 ∷ 100 ∷ 97 ∷ []

abbrev pub ctxt_word : List ℕ
ctxt_word = 99 ∷ 116 ∷ 120 ∷ 116 ∷ []

abbrev pub processes_word : List ℕ
processes_word = 112 ∷ 114 ∷ 111 ∷ 99 ∷ 101 ∷ 115 ∷ 115 ∷ 101 ∷ 115 ∷ []

-- The loop over /proc/diskstats: the variables when it ends.
unfoldable pub disk_loop : (List ℕ → Disk → Disk) → Disk → List (List ℕ) → Disk
disk_loop sscanf d [] = d
disk_loop sscanf d (line ∷ lines) =
    let further = disk_loop sscanf (sscanf line d) lines in
    if starts_with sda_word (sscanf line d).disk_name then sscanf line d else further

-- `if(x == -1) x = n; else x = n - x;`
abbrev pub count_up : ℤ → ℤ → Outcome ℤ
count_up x n = if eq_ℤ x (negsuc 0) then ok n else to_int (n -ℤ x)

-- What a line of /proc/stat changes.
unfoldable pub stat_line : Stat → Rate → Outcome Rate
stat_line v r =
    if starts_with ctxt_word v.str_name
    then (do n ← count_up r.n_contex_s v.n_number; ok (record r { n_contex_s = n }))
    else if starts_with processes_word v.str_name
    then (do n ← count_up r.n_process_c v.n_number; ok (record r { n_process_c = n }))
    else ok r

unfoldable pub stat_loop : (List ℕ → Stat → Stat) → Stat → List (List ℕ) → Rate → Outcome Rate
unfolding stat_line
stat_loop sscanf v [] r = ok r
stat_loop sscanf v (line ∷ lines) r = do
  r' ← stat_line (sscanf line v) r
  stat_loop sscanf (sscanf line v) lines r'

-- The sectors that are read and written, of /proc/diskstats.
unfoldable pub sectors : Scans → List (List ℕ) → Rate → Outcome Rate
unfolding disk_loop
sectors sscanf lines r = do
  let d = disk_loop sscanf.disk sscanf.old_disk lines
  sum ← to_int (d.n_read_sectors +ℤ d.n_write_sectors)
  n ← count_up r.n_sector_rw sum
  ok (record r { n_sector_rw = n })

-- What a round of getinfo reads of /proc/diskstats and /proc/stat.
pub record Files : Type 0 where
  pub diskstats : Option (List (List ℕ))
  pub stat : Option (List (List ℕ))

-- A round of getinfo; `none` for exit(0).
unfoldable pub getinfo_round : Scans → Files → Rate → Outcome (Option Rate)
unfolding sectors stat_loop
getinfo_round sscanf files r = elim files.diskstats [
  | none ↦ ok none
  | some lines ↦ sectors sscanf lines r >>= λ r'. elim files.stat [
    | none ↦ ok none
    | some stats ↦ stat_loop sscanf.stat sscanf.old_stat stats r' >>= λ r''. ok (some r'')
  ]
]

-- The loop of getinfo, for the rounds that are given.
unfoldable pub getinfo : Scans → List Files → Rate → Outcome (Option Rate)
unfolding getinfo_round
getinfo sscanf [] r = ok (some r)
getinfo sscanf (files ∷ rounds) r = getinfo_round sscanf files r >>= λ o. elim o [
  | none ↦ ok none
  | some r' ↦ getinfo sscanf rounds r'
]
