-- ===== src/FlatGwrr.antt =====
-- hw4/1105/sched_gwrr.c: the version of the group scheduler with one list of tasks. The kernel's lists
-- are sequences, first entry first; whether kmalloc returns memory is an argument. The spin lock covers
-- every operation, so each is one step; what is only printed is left out.
pub mod Served
pub mod Picks
pub mod Reach
pub mod Nested
pub mod Agree
mod Tests
use cs.Base.{
  ℕ, zero, suc, ◌+◌, ◌-◌, Bool, true, false, Option, none, some, List, [], ◌∷◌, ◌++◌, map, ltb,
  ◌==◌, if◌then◌else◌, get_elem?, set, ◌||◌, not,
}
use cs.Base.Outcome.{Outcome, ok, fault, ◌>>=◌, deref}

abbrev pub gwrr_dweight : ℕ
gwrr_dweight = 10

abbrev pub is_nil {ℓ} : {A : Type ℓ} → List A → Bool
is_nil [] = true
is_nil (x ∷ xs) = false

-- What the class reads of a `struct task_struct`.
pub record Task : Type 0 where
  pub pid : ℕ
  pub gid : ℕ

-- `struct group_struct`
pub record Group : Type 0 where
  pub weight : ℕ
  pub curr_weight : ℕ
  pub gid : ℕ

pub record Sched : Type 0 where
  pub groups_holder : List Group
  pub tasks_holder : List Task

-- The group at which the loop of enqueue_task_gwrr stops: the first with the gid, or the last; `grp` is
-- the group of the round before.
unfoldable pub stop_at : ℕ → Option Group → List Group → Option Group
stop_at gid grp [] = grp
stop_at gid grp (g ∷ gs) =
    let further = stop_at gid (some g) gs in if g.gid == gid then some g else further

-- `grp == NULL || grp->gid != p->gid`
abbrev pub is_missing : ℕ → Option Group → Bool
is_missing gid none = true
is_missing gid (some g) = not (g.gid == gid)

abbrev pub new_group : ℕ → Group
new_group gid = record { weight = gwrr_dweight; curr_weight = gwrr_dweight; gid = gid }

unfoldable pub enqueue_task : Bool → Task → Sched → Outcome Sched
unfolding stop_at
enqueue_task memory p s =
    if is_missing p.gid (stop_at p.gid none s.groups_holder)
    then (if memory
        then ok (record {
          groups_holder = s.groups_holder ++ new_group p.gid ∷ [];
          tasks_holder = s.tasks_holder ++ p ∷ [];
        })
        else fault)
    else ok (record s { tasks_holder = s.tasks_holder ++ p ∷ [] })

-- The first loop of dequeue_task_gwrr: the tasks that stay, and how many of them have the gid.
unfoldable pub delete_task : Task → List Task → List Task × ℕ
delete_task p [] = ([], 0)
delete_task p (t ∷ ts) =
    let (rest, count) = delete_task p ts in
    if t.pid == p.pid
    then (rest, count)
    else (t ∷ rest, if t.gid == p.gid then count + 1 else count)

-- The second loop: it reads a group through a pointer to a `struct task_struct`, whose gid lies far
-- behind the end of a `struct group_struct`, so that the read of the first group is undefined.
unfoldable pub delete_group : List Group → Outcome (List Group)
delete_group [] = ok []
delete_group (g ∷ gs) = fault

unfoldable pub dequeue_task : Task → Sched → Outcome Sched
unfolding delete_task delete_group
dequeue_task p s = do
  let (tasks, count) = delete_task p s.tasks_holder
  groups ← (if count == 0 then delete_group s.groups_holder else ok s.groups_holder)
  ok (record { groups_holder = groups; tasks_holder = tasks })

-- The loop for the largest `curr_weight` above `max`, from the group at place `i` on.
unfoldable pub scan : ℕ → ℕ → Option ℕ → List Group → ℕ × Option ℕ
scan i max at [] = (max, at)
scan i max at (g ∷ gs) =
    scan (i + 1) (if ltb max g.curr_weight then g.curr_weight else max)
      (if ltb max g.curr_weight then some i else at) gs

abbrev pub refill : List Group → List Group
refill [] = []
refill (g ∷ gs) = record g { curr_weight = g.weight } ∷ refill gs

-- The code from the label `retry` up to its loop's end, with as many rounds as the first argument
-- says; `none` when these are over and it still goes on.
unfoldable pub retry : ℕ → List Group → Option (Option ℕ × List Group)
unfolding scan
retry zero gs = none
retry (suc n) gs =
    let further = retry n (refill gs) in
    if (scan 0 0 none gs).0 == 0 then further else some ((scan 0 0 none gs).1, gs)

-- The task at which the last loop stops, the first with the gid or the last one, and the others.
unfoldable pub choose : ℕ → List Task → Option (Task × List Task)
choose gid [] = none
choose gid (t ∷ ts) = elim (choose gid ts) [
  | none ↦ some (t, [])
  | some (u, rest) ↦ if t.gid == gid then some (t, ts) else some (u, t ∷ rest)
]

-- `list_move_tail`, and what pick_next_task_gwrr returns.
abbrev pub move_tail : List Group → List Task → Option (Task × List Task) → Option Task × Sched
move_tail gs ts none = (none, record { groups_holder = gs; tasks_holder = ts })
move_tail gs ts (some (t, rest)) =
    (some t, record { groups_holder = gs; tasks_holder = rest ++ t ∷ [] })

-- pick_next_task_gwrr from `max_grp->curr_weight--` on
unfoldable pub take_turn : List Task → Option ℕ × List Group → Outcome (Option Task × Sched)
unfolding choose
take_turn ts (at, gs) = do
  i ← deref at
  g ← deref (get_elem? gs i)
  ok (move_tail (set gs i (record g { curr_weight = g.curr_weight - 1 })) ts (choose g.gid ts))

-- pick_next_task_gwrr with a number of rounds; `none` when they are not enough.
unfoldable pub pick_next_task : ℕ → Sched → Option (Outcome (Option Task × Sched))
unfolding retry take_turn
pick_next_task n s =
    if is_nil s.groups_holder || is_nil s.tasks_holder
    then some (ok (none, s))
    else elim (retry n s.groups_holder) [
      | none ↦ none
      | some out ↦ some (take_turn s.tasks_holder out)
    ]
