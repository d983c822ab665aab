-- ===== src/Gwrr.antt =====
-- hw4/sched_gwrr.c: the group weighted round robin scheduling class. The kernel's intrusive lists are
-- sequences, first entry first: list_add puts an entry in front, list_move_tail last. A pointer to a
-- group that a loop leaves behind is the group's place in its list. The spin lock covers every
-- operation, so each is one step; what is only printed is left out.
pub mod Scan
pub mod Queueing
pub mod Turns
pub mod Invariant
pub mod Reach
mod Tests
use cs.Base.{
  ℕ, zero, suc, ◌+◌, ◌-◌, ◌≡◌, Bool, true, false, Option, none, some, List, [], ◌∷◌, ◌++◌, map, ltb,
  ◌==◌, if◌then◌else◌, get_elem?, set,
}
use cs.Base.Outcome.{Outcome, ok, fault, ◌>>=◌, deref}

-- What the class reads of a `struct task_struct`; the pid stands for its address too.
pub record Task : Type 0 where
  pub pid : ℕ
  pub gid : ℕ

-- `group_member`
pub record Group : Type 0 where
  pub weight : ℕ
  pub curr_weight : ℕ
  pub gid : ℕ
  pub tasks_holder : List Task

-- The file's globals, and the pids of the task_structs that it has passed to kfree.
pub record Sched : Type 0 where
  pub groups_holder : List Group
  pub last : Option ℕ
  pub freed : List ℕ

abbrev pub gwrr_dweight : ℕ
gwrr_dweight = 10

-- list_add(&p->task_hanger, &tmp->tasks_holder)
abbrev pub add_task : Task → Group → Group
add_task p g = record g { tasks_holder = p ∷ g.tasks_holder }

-- The first loop of enqueue_task_gwrr and what it adds to: `tmp` is the first group of the gid, and
-- where there is none the last group that the loop looked at.
unfoldable pub add_to_found : Task → List Group → List Group
add_to_found p [] = []
add_to_found p (g ∷ []) = add_task p g ∷ []
add_to_found p (g ∷ h ∷ rest) =
    let further = add_to_found p (h ∷ rest) in
    if g.gid == p.gid then add_task p g ∷ h ∷ rest else g ∷ further

abbrev pub new_group : Task → Group
new_group p = record {
  weight = gwrr_dweight;
  curr_weight = gwrr_dweight;
  gid = p.gid;
  tasks_holder = p ∷ [];
}

-- `room` says whether kmalloc returns memory; its result is not tested.
unfoldable pub enqueue_groups : Bool → Task → List Group → Outcome (List Group)
unfolding add_to_found
enqueue_groups room p [] = if room then ok (new_group p ∷ []) else fault
enqueue_groups room p (g ∷ gs) = ok (add_to_found p (g ∷ gs))

unfoldable pub enqueue_task : Bool → Task → Sched → Outcome Sched
enqueue_task room p s = do
  gs ← enqueue_groups room p s.groups_holder
  ok (record s { groups_holder = gs; last = some p.pid })

-- The inner loop of dequeue_task_gwrr: the first task of the pid is taken out, and freed.
unfoldable pub delete_task : ℕ → List Task → List Task × List ℕ
delete_task pid [] = ([], [])
delete_task pid (t ∷ ts) =
    let (rest, gone) = delete_task pid ts in
    if t.pid == pid then (ts, t.pid ∷ []) else (t ∷ rest, gone)

-- list_empty(&tmp->tasks_holder) and the deletion of the group
abbrev pub drop_empty : Group → List Group → List Task × List ℕ → List Group × List ℕ
drop_empty g gs ([], freed) = (gs, freed)
drop_empty g gs (t ∷ ts, freed) = (record g { tasks_holder = t ∷ ts } ∷ gs, freed)

-- The outer loop: the first group of the gid, which is taken out when it has no task left.
unfoldable pub dequeue_groups : Task → List Group → List Group × List ℕ
unfolding delete_task
dequeue_groups p [] = ([], [])
dequeue_groups p (g ∷ gs) =
    let (rest, gone) = dequeue_groups p gs in
    if g.gid == p.gid then drop_empty g gs (delete_task p.pid g.tasks_holder) else (g ∷ rest, gone)

-- `last == p`
abbrev pub clear_last : Option ℕ → ℕ → Option ℕ
clear_last none pid = none
clear_last (some l) pid = if l == pid then none else some l

unfoldable pub dequeue_task : Task → Sched → Sched
dequeue_task p s =
    let (gs, gone) = dequeue_groups p s.groups_holder in
    record { groups_holder = gs; last = clear_last s.last p.pid; freed = gone ++ s.freed }

-- The loop that looks for the largest current weight: `max` and the place of `max_tmp`.
unfoldable pub scan : ℕ → ℕ → Option ℕ → List Group → ℕ × Option ℕ
scan i max at [] = (max, at)
scan i max at (g ∷ gs) =
    let better = ltb max g.curr_weight in
    scan (i + 1) (if better then g.curr_weight else max) (if better then some i else at) gs

abbrev pub refill_group : Group → Group
refill_group g = record g { curr_weight = g.weight }

unfoldable pub refill : List Group → List Group
refill = map refill_group

-- The first task of the group, moved to its tail; a group with no task gives NULL.
abbrev pub rotate : Group → List Task → Option Task × Group
rotate g [] = (none, g)
rotate g (p ∷ ts) = (some p, record g { tasks_holder = ts ++ (p ∷ []) })

-- From `max_tmp->curr_weight--` on.
unfoldable pub take_turn : Option ℕ → List Group → Outcome (Option Task × List Group)
take_turn at gs = do
  i ← deref at
  g ← deref (get_elem? gs i)
  let (p, g') = rotate (record g { curr_weight = g.curr_weight - 1 }) g.tasks_holder
  ok (p, set gs i g')

unfoldable pub pick_groups : List Group → Outcome (Option Task × List Group)
unfolding take_turn refill scan
pick_groups [] = ok (none, [])
pick_groups (g ∷ gs) =
    let (max, at) = scan 0 0 none (g ∷ gs) in
    if max == 0
    then take_turn (scan 0 0 none (refill (g ∷ gs))).1 (refill (g ∷ gs))
    else take_turn at (g ∷ gs)

unfoldable pub pick_next_task : Sched → Outcome (Option Task × Sched)
pick_next_task s = do (p, gs) ← pick_groups s.groups_holder; ok (p, record s { groups_holder = gs })
