-- ===== src/Rates/Print.antt =====
-- What hw1/part_one.c prints: the report on the machine without arguments, and the rounds of printinfo.
use cs.Base.{
  ℕ, ◌+◌, Option, none, some, List, [], ◌∷◌, ◌++◌, ◌==◌, if◌then◌else◌, ltb, get_elem?, take,
}
use cs.Base.Outcome.{Outcome, ok, fault, ◌>>=◌, deref}
use cs.Base.Text.{starts_with, until_nul}
use cs.Rates.{max_size, Rate}

pub data Output : Type 0 where
  cpu_title : Output
  cpu : ℕ → List ℕ → Output
  memory_title : Output
  memory : List ℕ → Output
  uptime_title : Output
  uptime : List ℕ → Output

-- "model name\t:"
abbrev pub target : List ℕ
target = 109 ∷ 111 ∷ 100 ∷ 101 ∷ 108 ∷ 32 ∷ 110 ∷ 97 ∷ 109 ∷ 101 ∷ 9 ∷ 58 ∷ []

-- The place of the first `c`, or 0; both loops that break at a character.
unfoldable pub place_of : ℕ → ℕ → List ℕ → ℕ
place_of c i [] = 0
place_of c i (d ∷ text) = let further = place_of c (i + 1) text in if d == c then i else further

-- `strncpy(part_one,line,pos+1); part_one[pos+1] = '\0';`
unfoldable pub copy_part : ℕ → List ℕ → Outcome (List ℕ)
copy_part size text = if ltb size max_size then ok (take size text) else fault

-- The loop of printcpu; `j` counts the lines that are printed.
unfoldable pub printcpu_loop : ℕ → List (List ℕ) → Outcome (List Output)
unfolding place_of copy_part
printcpu_loop j [] = ok []
printcpu_loop j (line ∷ lines) = do
  part_one ← copy_part (place_of 58 0 line + 1) line
  rest ← printcpu_loop (if starts_with target part_one then j + 1 else j) lines
  ok (if starts_with target part_one then cpu j line ∷ rest else rest)

-- printuptime, of the memory that getline gives: its loop runs over all of it.
unfoldable pub printuptime : List ℕ → Outcome (List Output)
unfolding place_of copy_part
printuptime buffer = do
  part_one ← copy_part (place_of 32 0 buffer) buffer
  ok (uptime_title ∷ uptime (until_nul part_one) ∷ [])

-- printmem prints the first line.
unfoldable pub printmem : List (List ℕ) → Outcome (List Output)
printmem lines = do line ← deref (get_elem? lines 0); ok (memory_title ∷ memory line ∷ [])

-- main without arguments: /proc/cpuinfo, /proc/meminfo and /proc/uptime; a file that is missing ends it.
unfoldable pub report :
    Option (List (List ℕ)) → Option (List (List ℕ)) → Option (List ℕ) → Outcome (List Output)
unfolding printcpu_loop printmem printuptime
report none meminfo uptime_file = ok (cpu_title ∷ [])
report (some lines) none uptime_file = do cpus ← printcpu_loop 0 lines; ok (cpu_title ∷ cpus)
report (some lines) (some mem_lines) none = do
  cpus ← printcpu_loop 0 lines
  mem ← printmem mem_lines
  ok (cpu_title ∷ cpus ++ mem)
report (some lines) (some mem_lines) (some buffer) = do
  cpus ← printcpu_loop 0 lines
  mem ← printmem mem_lines
  up ← printuptime buffer
  ok (cpu_title ∷ cpus ++ mem ++ up)

-- "cpu", "MemTotal:" and "MemFree:"
abbrev pub cpu_word : List ℕ
cpu_word = 99 ∷ 112 ∷ 117 ∷ []

abbrev pub mem_total_word : List ℕ
mem_total_word = 77 ∷ 101 ∷ 109 ∷ 84 ∷ 111 ∷ 116 ∷ 97 ∷ 108 ∷ 58 ∷ []

abbrev pub mem_free_word : List ℕ
mem_free_word = 77 ∷ 101 ∷ 109 ∷ 70 ∷ 114 ∷ 101 ∷ 101 ∷ 58 ∷ []

-- `name`, `t_user`, `t_sys` and `t_idl`, of a type for `float`.
pub record Usage (F : Type 0) : Type 0 where
  pub name : List ℕ
  pub t_user : F
  pub t_sys : F
  pub t_idl : F

pub record Memory (F : Type 0) : Type 0 where
  pub name : List ℕ
  pub number : F
  pub mem_total : F
  pub mem_free : F

-- The loop over /proc/stat: the variables at the first line whose name starts with "cpu", or at the end.
unfoldable pub usage_loop :
    {F : Type 0} → (List ℕ → Usage F → Usage F) → Usage F → List (List ℕ) → Usage F
usage_loop sscanf v [] = v
usage_loop sscanf v (line ∷ lines) =
    let further = usage_loop sscanf (sscanf line v) lines in
    if starts_with cpu_word (sscanf line v).name then sscanf line v else further

-- `mem_total = number;` where the name is "MemTotal:"
abbrev pub keep_total : {F : Type 0} → Memory F → Memory F
keep_total v = if starts_with mem_total_word v.name then record v { mem_total = v.number } else v

-- The loop over /proc/meminfo, up to the line whose name starts with "MemFree:".
unfoldable pub memory_loop :
    {F : Type 0} → (List ℕ → Memory F → Memory F) → Memory F → List (List ℕ) → Memory F
memory_loop sscanf v [] = v
memory_loop sscanf v (line ∷ lines) =
    let here = keep_total (sscanf line v) in
    let further = memory_loop sscanf here lines in
    if starts_with mem_free_word here.name then record here { mem_free = here.number } else further

-- What printinfo prints in a round: the shares of the modes, of the free memory, and the counters.
pub record Printed (F : Type 0) : Type 0 where
  pub user_mode : F
  pub kernel_mode : F
  pub idle_mode : F
  pub free_memory : F
  pub rates : Rate

-- A round of printinfo, with the sum and the quotient of `float`, the calls of sscanf, and what the
-- variables have before; a file that is not there is read through NULL.
unfoldable pub printinfo_round :
    {F : Type 0}
    → (add div : F → F → F) → (List ℕ → Usage F → Usage F)
    → (List ℕ → Memory F → Memory F)
    → Usage F
    → Memory F
    → Option (List (List ℕ))
    → Option (List (List ℕ))
    → Rate
    → Outcome (Printed F)
unfolding usage_loop memory_loop
printinfo_round add div usage_of memory_of u m stat meminfo prate = do
  stats ← deref stat
  lines ← deref meminfo
  let v = usage_loop usage_of u stats
  let sum = add (add v.t_user v.t_sys) v.t_idl
  let free = memory_loop memory_of m lines
  ok (record {
    user_mode = div v.t_user sum;
    kernel_mode = div v.t_sys sum;
    idle_mode = div v.t_idl sum;
    free_memory = div free.mem_free free.mem_total;
    rates = prate;
  })
