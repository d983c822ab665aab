-- ===== src/Prinfo/Client.antt =====
-- hw2/group/mysyscall/mysyscall.c: the program that makes the call and prints its answer as a table. What
-- printf makes of a number, atoi and kill are parameters; a line that is printed is its text.
pub mod Rows
use cs.Base.{
  ℕ, ◌+◌, ◌-◌, Bool, true, false, Option, none, some, List, [], ◌∷◌, ◌++◌, ltb, if◌then◌else◌,
  length, replicate, get_or,
}
use cs.Base.Outcome.{Outcome, ok, ◌>>=◌}
use cs.Base.Text.{codes, until_nul}
use cs.Prinfo.{Info, Task, cs2456_test}

-- The conversions %ld, %d and %lu.
pub record Printf : Type 0 where
  pub ld : ℕ → List ℕ
  pub d : ℕ → List ℕ
  pub lu : ℕ → List ℕ

abbrev pub sentences : List (List ℕ)
sentences =
    codes "Current State of Process is "
    ∷ codes "Nice Value of Process is "
    ∷ codes "Process Identifier "
    ∷ codes "Process ID of parent "
    ∷ codes "Process ID of youngest child "
    ∷ codes "PID of the oldest among younger siblings "
    ∷ codes "PID of the youngest among older siblings "
    ∷ codes "Process start time "
    ∷ codes "CPU time spent in user mode "
    ∷ codes "CPU time spent in system mode "
    ∷ codes "Total user time of children "
    ∷ codes "Total system time of children "
    ∷ codes "User id of process owner "
    ∷ codes "Name of program executed "
    ∷ []

-- What the conversion in the round of each sentence prints.
abbrev pub values : Printf → Info → List (List ℕ)
values f info =
    f.ld info.state
    ∷ f.ld info.nice
    ∷ f.d info.pid
    ∷ f.d info.parent_pid
    ∷ f.d info.youngest_child_pid
    ∷ f.d info.younger_sibling_pid
    ∷ f.d info.older_sibling_pid
    ∷ f.lu info.start_time
    ∷ f.ld info.user_time
    ∷ f.ld info.sys_time
    ∷ f.ld info.cutime
    ∷ f.ld info.cstime
    ∷ f.ld info.uid
    ∷ until_nul info.comm
    ∷ []

-- The loop for `len_al`.
unfoldable pub longest : ℕ → List (List ℕ) → ℕ
longest len [] = len
longest len (s ∷ ss) = longest (if ltb len (length s) then length s else len) ss

-- The loop that prints: blanks in front of the sentence, a blank and the value behind it.
unfoldable pub print_rows : ℕ → List (List ℕ) → List (List ℕ) → List (List ℕ)
print_rows len_al [] vs = []
print_rows len_al (s ∷ ss) [] = []
print_rows len_al (s ∷ ss) (v ∷ vs) =
    let further = print_rows len_al ss vs in
    (replicate (len_al - length s) 32 ++ s ++ 32 ∷ v) ∷ further

unfoldable pub list_field2 : Printf → Info → List (List ℕ)
unfolding longest print_rows
list_field2 f info =
    print_rows (longest (length (get_or sentences 0 [])) sentences + 1) sentences (values f info)

pub data Printed : Type 0 where
  usage : Printed
  no_such_pid : Printed
  table : List (List ℕ) → Printed

-- The struct after the call.
abbrev pub filled : Info → Option Info → Info
filled info none = info
filled info (some answer) = answer

-- main, with its argument, `kill(pid,0) == 0` and what the struct holds before. The result of the call is
-- not looked at: after an error the struct is printed as it was.
unfoldable pub client :
    Printf
    → (List ℕ → ℕ)
    → (ℕ → Bool)
    → ℕ
    → (ℕ → Option Task)
    → Info
    → Option (List ℕ)
    → Outcome Printed
client f atoi exists junk find_task_by_pid before none = ok usage
client f atoi exists junk find_task_by_pid before (some arg) =
    let info : Info = record before { pid = atoi arg } in
    if exists info.pid
    then (do
      o ← cs2456_test junk find_task_by_pid (some info)
      ok (table (list_field2 f (filled info o))))
    else ok no_such_pid
