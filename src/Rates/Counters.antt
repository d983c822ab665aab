-- ===== src/Rates/Counters.antt =====
-- What a round of getinfo in hw1/part_one.c makes of the numbers in /proc/diskstats and /proc/stat.
use cs.Base.{
  ℕ, ◌-◌, ◌≤◌, ◌≡◌, refl, sym, ap, ◌∙◌, true, false, Option, none, some, List, [], ◌∷◌, ◌==◌,
  if◌then◌else◌, leb, arith, Bool-cases, inl, inr,
}
use cs.Base.Int.{ℤ, pos, negsuc, ◌+ℤ◌, to_int, sub_lem}
use cs.Base.Outcome.{Outcome, ok, fault, ◌>>=◌, int_max, Outcome-cases}
use cs.Base.Text.{starts_with}
use cs.Rates.{
  Rate, Disk, Stat, Scans, Files, sda_word, ctxt_word, processes_word, disk_loop, count_up,
  stat_line, stat_loop, sectors, getinfo_round,
}

-- The first line of the disk sda.
abbrev pub sda_disk : (List ℕ → Disk → Disk) → Disk → List (List ℕ) → Option Disk
sda_disk sscanf d [] = none
sda_disk sscanf d (line ∷ lines) =
    let further = sda_disk sscanf (sscanf line d) lines in
    if starts_with sda_word (sscanf line d).disk_name then some (sscanf line d) else further

-- The numbers of the lines whose name starts with a word.
abbrev pub numbers : List ℕ → (List ℕ → Stat → Stat) → Stat → List (List ℕ) → List ℤ
numbers word sscanf v [] = []
numbers word sscanf v (line ∷ lines) =
    let further = numbers word sscanf (sscanf line v) lines in
    if starts_with word (sscanf line v).str_name
    then (sscanf line v).n_number ∷ further
    else further

-- Numbers that the kernel counts up.
pub record Totals : Type 0 where
  pub sector : ℕ
  pub context : ℕ
  pub process : ℕ

-- The files have these totals, each once, and no number that an `int` does not hold.
pub record Reads (sscanf : Scans) (files : Files) (t : Totals) : Type 0 where
  pub lines : List (List ℕ)
  pub stats : List (List ℕ)
  pub disk : Disk
  pub has_lines : files.diskstats ≡ some lines
  pub has_stats : files.stat ≡ some stats
  pub found : sda_disk sscanf.disk sscanf.old_disk lines ≡ some disk
  pub sum : disk.n_read_sectors +ℤ disk.n_write_sectors ≡ pos t.sector
  pub contexts : numbers ctxt_word sscanf.stat sscanf.old_stat stats ≡ pos t.context ∷ []
  pub processes : numbers processes_word sscanf.stat sscanf.old_stat stats ≡ pos t.process ∷ []
  pub small_sector : t.sector ≤ int_max
  pub small_context : t.context ≤ int_max
  pub small_process : t.process ≤ int_max

-- A counter before its first round, or with a number up to a bound.
pub data AtMost (x : ℕ) : ℤ → Type 0 where
  unset : AtMost x (negsuc 0)
  counted : (u : ℕ) → u ≤ x → AtMost x (pos u)

abbrev pub since : ℤ → ℕ
since (pos u) = u
since (negsuc n) = 0

pub since-AtMost : (x : ℕ) (v : ℤ) → AtMost x v → since v ≤ x
since-AtMost x v unset = omega arith
since-AtMost x v (counted u le) = le

count_up_lem :
    (x : ℕ) (v : ℤ) → AtMost x v → x ≤ int_max → count_up v (pos x) ≡ ok (pos (x - since v))
count_up_lem x v unset small = ap (λ n. ok (pos n)) (omega arith)
count_up_lem x v (counted u le) small =
    let fits : leb (x - u) int_max ≡ true = ground (arith, small) in
    ap to_int (sub_lem x u le) ∙ rw fits refl

disk_loop_lem :
    (sscanf : List ℕ → Disk → Disk) (d e : Disk) (lines : List (List ℕ))
    → sda_disk sscanf d lines ≡ some e
    → disk_loop sscanf d lines ≡ e
unfolding disk_loop
disk_loop_lem sscanf d e [] found = absurd cc
disk_loop_lem sscanf d e (line ∷ lines) found =
    elim (Bool-cases (starts_with sda_word (sscanf line d).disk_name)) [
      | inl b ↦ rw b (let same = (rw b at found) in cc)
      | inr b ↦ rw b (disk_loop_lem sscanf (sscanf line d) e lines (rw b at found))
    ]

-- A counter after the numbers of one file.
abbrev count_all : ℤ → List ℤ → Outcome ℤ
count_all x [] = ok x
count_all x (n ∷ ns) = count_up x n >>= λ y. count_all y ns

abbrev both : Rate → Outcome ℤ → Outcome ℤ → Outcome Rate
both r c p = c >>= λ n. p >>= λ m. ok (record r { n_contex_s = n; n_process_c = m })

both-fault : (r : Rate) (c : Outcome ℤ) → both r c fault ≡ fault
both-fault r (ok n) = refl
both-fault r fault = refl

ctxt-processes :
    (s : List ℕ) → starts_with ctxt_word s ≡ true → starts_with processes_word s ≡ false
ctxt-processes [] h = absurd cc
ctxt-processes (d ∷ s) h = elim (Bool-cases (99 == d)) [
  | inl e ↦ (let other : (112 == d) ≡ false = ground (arith, e) in rw other refl)
  | inr e ↦ absurd (let no = (rw e at h) in cc)
]

-- The loop over /proc/stat counts with the numbers of both words.
stat_loop_lem :
    (sscanf : List ℕ → Stat → Stat) (v : Stat) (lines : List (List ℕ)) (r : Rate)
    → stat_loop sscanf v lines r
      ≡ both r
          (count_all r.n_contex_s (numbers ctxt_word sscanf v lines))
          (count_all r.n_process_c (numbers processes_word sscanf v lines))
unfolding stat_loop stat_line
stat_loop_lem sscanf v [] r = refl
stat_loop_lem sscanf v (line ∷ lines) r =
    elim (Bool-cases (starts_with ctxt_word (sscanf line v).str_name)) [
      | inl c ↦
          (let p = ctxt-processes (sscanf line v).str_name c in
            rw (c, p)
              (elim (Outcome-cases (count_up r.n_contex_s (sscanf line v).n_number)) [
                | inl e ↦ rw e refl
                | inr (n, e) ↦
                    rw e (stat_loop_lem sscanf (sscanf line v) lines (record r { n_contex_s = n }))
              ]))
      | inr c ↦ elim (Bool-cases (starts_with processes_word (sscanf line v).str_name)) [
        | inl p ↦
            rw (c, p)
              (elim (Outcome-cases (count_up r.n_process_c (sscanf line v).n_number)) [
                | inl e ↦ rw e (
                    sym (
                      both-fault r
                        (count_all r.n_contex_s (numbers ctxt_word sscanf (sscanf line v) lines))))
                | inr (n, e) ↦
                    rw e (stat_loop_lem sscanf (sscanf line v) lines (record r { n_process_c = n }))
              ])
        | inr p ↦ rw (c, p) (stat_loop_lem sscanf (sscanf line v) lines r)
      ]
    ]

-- Each counter is unset or at most its total.
pub record IsBelow (r : Rate) (t : Totals) : Type 0 where
  pub sector : AtMost t.sector r.n_sector_rw
  pub context : AtMost t.context r.n_contex_s
  pub process : AtMost t.process r.n_process_c

-- The counters after a round that reads these totals.
abbrev pub after_round : Rate → Totals → Rate
after_round r t = record {
  n_sector_rw = pos (t.sector - since r.n_sector_rw);
  n_contex_s = pos (t.context - since r.n_contex_s);
  n_process_c = pos (t.process - since r.n_process_c);
}

sectors_lem :
    (sscanf : Scans) (lines : List (List ℕ)) (d : Disk) (x : ℕ) (r : Rate)
    → sda_disk sscanf.disk sscanf.old_disk lines ≡ some d
    → d.n_read_sectors +ℤ d.n_write_sectors ≡ pos x
    → x ≤ int_max
    → AtMost x r.n_sector_rw
    → sectors sscanf lines r ≡ ok (record r { n_sector_rw = pos (x - since r.n_sector_rw) })
unfolding sectors
sectors_lem sscanf lines d x r found sum small below =
    let fits : leb x int_max ≡ true = ground (arith, small) in
    rw
      (
        disk_loop_lem sscanf.disk sscanf.old_disk d lines found,
        sum,
        fits,
        count_up_lem x r.n_sector_rw below small,
      )
      refl

pub getinfo_round_lem :
    (sscanf : Scans) (files : Files) (t : Totals) (r : Rate)
    → Reads sscanf files t
    → IsBelow r t
    → getinfo_round sscanf files r ≡ ok (some (after_round r t))
unfolding getinfo_round
getinfo_round_lem sscanf files t r reads below =
    let counted_sectors =
      sectors_lem sscanf reads.lines reads.disk t.sector r reads.found reads.sum reads.small_sector
        below.sector in
    let c = count_up_lem t.context r.n_contex_s below.context reads.small_context in
    let p = count_up_lem t.process r.n_process_c below.process reads.small_process in
    let stats =
      stat_loop_lem sscanf.stat sscanf.old_stat reads.stats
        (record r { n_sector_rw = pos (t.sector - since r.n_sector_rw) }) in
    rw
      (
        reads.has_lines, reads.has_stats, counted_sectors, stats, reads.contexts, reads.processes,
        c, p,
      )
      refl
