-- ===== src/Prinfo.antt =====
-- The process information call of hw2/group/cs2456/cs2456_test.c, which fills the struct of
-- hw2/group/mysyscall/prinfo.h.
pub mod Search
pub mod Family
pub mod Call
pub mod Client
mod Tests
use cs.Base.{
  ℕ, zero, suc, ◌+◌, ◌%◌, ◌^◌, Bool, true, false, ◌&&◌, Option, none, some, List, [], ◌∷◌, ◌++◌,
  ltb, ◌==◌, if◌then◌else◌,
}
use cs.Base.Outcome.{Outcome, ok, fault, ◌>>=◌, deref}

-- `struct prinfo`; a number is the bit pattern of the field.
pub record Info : Type 0 where
  pub state : ℕ
  pub nice : ℕ
  pub pid : ℕ
  pub parent_pid : ℕ
  pub youngest_child_pid : ℕ
  pub younger_sibling_pid : ℕ
  pub older_sibling_pid : ℕ
  pub start_time : ℕ
  pub user_time : ℕ
  pub sys_time : ℕ
  pub cutime : ℕ
  pub cstime : ℕ
  pub uid : ℕ
  pub comm : List ℕ

-- What is read of a child.
pub record Child : Type 0 where
  pub pid : ℕ
  pub utime : ℕ
  pub stime : ℕ

-- What the call reads of a `struct task_struct` of the kernel. `visited` are the pids that the walk over the
-- ring of siblings reads, in its order: the ring also holds the list head in the parent, where the code
-- reads a pid too. Pids are not negative.
pub record Task : Type 0 where
  pub state : ℕ
  pub nice : ℕ
  pub pid : ℕ
  pub parent_pid : ℕ
  pub real_start_time : ℕ
  pub utime : ℕ
  pub stime : ℕ
  pub uid : ℕ
  pub comm : List ℕ
  pub children : List Child
  pub visited : List ℕ

-- `do info->comm[i] = ptr_task->comm[i]; while (info->comm[i++]);` with the bytes that are left of both
-- arrays; a name without a 0 byte runs over their end.
unfoldable pub copy_comm : List ℕ → List ℕ → Outcome (List ℕ)
copy_comm [] to = fault
copy_comm (c ∷ from) [] = fault
copy_comm (c ∷ from) (d ∷ to) =
    let further = copy_comm from to in
    if c == 0 then ok (c ∷ to) else (do rest ← further; ok (c ∷ rest))

abbrev pub wrap : ℕ → ℕ
wrap n = n % 2 ^ 32

-- The loop over the children: `youngest_pid`, `none` while it is unset, and the sums of the times.
unfoldable pub scan_children : Option ℕ → ℕ → ℕ → List Child → Option ℕ × ℕ × ℕ
scan_children youngest cutime cstime [] = (youngest, cutime, cstime)
scan_children youngest cutime cstime (c ∷ cs) =
    scan_children
      (elim youngest [ none ↦ some c.pid | some y ↦ if ltb c.pid y then some c.pid else some y ])
      (wrap (cutime + c.utime)) (wrap (cstime + c.stime)) cs

-- One round of the loop over the siblings: `youngest_of_olders`, `none` while it is unset, and
-- `oldest_of_youngers`.
abbrev pub first_or : ℕ → Option ℕ → ℕ
first_or pid none = pid
first_or pid (some y) = y

abbrev pub above : ℕ → ℕ → ℕ → ℕ
above my_pid pid y = if ltb my_pid pid && ltb pid y then pid else y

abbrev pub below : ℕ → ℕ → ℕ → ℕ
below my_pid pid o = if ltb pid my_pid && ltb o pid then pid else o

unfoldable pub scan_siblings : ℕ → Option ℕ → ℕ → List ℕ → Option ℕ × ℕ
scan_siblings my_pid youngest oldest [] = (youngest, oldest)
scan_siblings my_pid youngest oldest (pid ∷ pids) =
    scan_siblings my_pid (some (above my_pid pid (first_or pid youngest))) (below my_pid pid oldest)
      pids

-- A local variable that was never set holds `junk`.
abbrev pub settled : ℕ → Option ℕ → ℕ
settled junk none = junk
settled junk (some v) = v

-- sys_cs2456_test for the task that find_task_by_pid returns; `none` for the return of -22.
unfoldable pub cs2456_test : ℕ → (ℕ → Option Task) → Option Info → Outcome (Option Info)
unfolding copy_comm scan_children scan_siblings
cs2456_test junk find_task_by_pid none = ok none
cs2456_test junk find_task_by_pid (some info) = do
  t ← deref (find_task_by_pid info.pid)
  comm ← copy_comm t.comm info.comm
  let (youngest, cutime, cstime) = scan_children none 0 0 t.children
  let (youngest_of_olders, oldest_of_youngers) = scan_siblings t.pid none 0 t.visited
  ok (
      some (record {
        state = t.state;
        nice = t.nice;
        pid = info.pid;
        parent_pid = t.parent_pid;
        youngest_child_pid = settled junk youngest;
        younger_sibling_pid = settled junk youngest_of_olders;
        older_sibling_pid = oldest_of_youngers;
        start_time = t.real_start_time;
        user_time = t.utime;
        sys_time = t.stime;
        cutime = cutime;
        cstime = cstime;
        uid = t.uid;
        comm = comm;
      }))
