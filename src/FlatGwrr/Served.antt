-- ===== src/FlatGwrr/Served.antt =====
-- Groups and tasks of hw4/1105/sched_gwrr.c: a gid has a group while it has a task.
use cs.Base.{
  false, ℕ, ◌+◌, ◌≤◌, ◌≡◌, ◌≢◌, refl, ◌∙◌, ap, true, Option, none, some, List, [], ◌∷◌, ◌++◌, ◌==◌,
  if◌then◌else◌, arith, Bool-cases, All, inl, inr,
}
use cs.Base.Outcome.{fault, ok}
use cs.FlatGwrr.{
  Task, Group, Sched, stop_at, is_missing, new_group, enqueue_task, delete_task, delete_group,
  dequeue_task,
}

-- The number of groups with a gid, and of tasks.
abbrev pub groups_of : ℕ → List Group → ℕ
groups_of d [] = 0
groups_of d (g ∷ gs) = (if g.gid == d then 1 else 0) + groups_of d gs

abbrev pub tasks_of : ℕ → List Task → ℕ
tasks_of d [] = 0
tasks_of d (t ∷ ts) = (if t.gid == d then 1 else 0) + tasks_of d ts

-- Each gid has one group if it has tasks, and none if it has not.
abbrev pub IsServed : Sched → Type 0
IsServed s =
    (d : ℕ) → groups_of d s.groups_holder ≡ (if tasks_of d s.tasks_holder == 0 then 0 else 1)

groups_of-append :
    (d : ℕ) (gs hs : List Group) → groups_of d (gs ++ hs) ≡ groups_of d gs + groups_of d hs
groups_of-append d [] hs = omega arith
groups_of-append d (g ∷ gs) hs = omega (arith, groups_of-append d gs hs)

pub tasks_of-append :
    (d : ℕ) (ts us : List Task) → tasks_of d (ts ++ us) ≡ tasks_of d ts + tasks_of d us
tasks_of-append d [] us = omega arith
tasks_of-append d (t ∷ ts) us = omega (arith, tasks_of-append d ts us)

-- The loop of enqueue_task_gwrr misses the gid exactly where no group has it.
stop_at-missing :
    (d : ℕ) (grp : Option Group) (gs : List Group)
    → is_missing d grp ≡ true
    → is_missing d (stop_at d grp gs) ≡ (groups_of d gs == 0)
unfolding stop_at
stop_at-missing d grp [] h = h
stop_at-missing d grp (g ∷ gs) h = elim (Bool-cases (g.gid == d)) [
  | inl e ↦ rw e (ground (arith, e))
  | inr e ↦ rw e (stop_at-missing d (some g) gs (ground (arith, e)) ∙ ap (◌== 0) (omega arith))
]

-- The tasks with the pid of `p` have its gid, as there is one such task.
abbrev pub AgreesWith : Task → List Task → Type 0
AgreesWith p ts = All (λ t. (t.pid ≡ p.pid) → (t.gid ≡ p.gid)) ts

delete_task-tasks_of :
    (p : Task) (d : ℕ) (ts : List Task)
    → AgreesWith p ts
    → d ≢ p.gid
    → tasks_of d (delete_task p ts).0 ≡ tasks_of d ts
unfolding delete_task
delete_task-tasks_of p d [] one other = refl
delete_task-tasks_of p d (t ∷ ts) one other =
    ground (arith, delete_task-tasks_of p d ts one.1 other, one.0)

delete_task-le :
    (p : Task) (d : ℕ) (ts : List Task) → tasks_of d (delete_task p ts).0 ≤ tasks_of d ts
unfolding delete_task
delete_task-le p d [] = omega arith
delete_task-le p d (t ∷ ts) = ground (arith, delete_task-le p d ts)

pub delete_task-count :
    (p : Task) (ts : List Task) → (delete_task p ts).1 ≡ tasks_of p.gid (delete_task p ts).0
unfolding delete_task
delete_task-count p [] = refl
delete_task-count p (t ∷ ts) = ground (arith, delete_task-count p ts)

-- With memory for a new group, enqueue_task_gwrr succeeds and keeps the groups those of the tasks.
pub enqueue-IsServed :
    (p : Task) (s : Sched) → IsServed s → (t : Sched) × (enqueue_task true p s ≡ ok t) × IsServed t
unfolding enqueue_task
enqueue-IsServed p s g =
    let missing = stop_at-missing p.gid none s.groups_holder refl in
    elim (Bool-cases (groups_of p.gid s.groups_holder == 0)) [
      | inl e ↦ (
        record {
          groups_holder = s.groups_holder ++ new_group p.gid ∷ [];
          tasks_holder = s.tasks_holder ++ p ∷ [];
        },
        rw (missing, e) refl,
        λ d. ground (
          arith,
          groups_of-append d s.groups_holder (new_group p.gid ∷ []),
          tasks_of-append d s.tasks_holder (p ∷ []),
          g d,
          e,
        ),
      )
      | inr e ↦ (
        record s { tasks_holder = s.tasks_holder ++ p ∷ [] },
        rw (missing, e) refl,
        λ d. ground (arith, tasks_of-append d s.tasks_holder (p ∷ []), g d, e),
      )
    ]

-- Where one task has the pid of `p` and another one of its gid stays, dequeue_task_gwrr succeeds and
-- keeps the groups those of the tasks that stay.
pub dequeue-IsServed :
    (p : Task) (s : Sched)
    → AgreesWith p s.tasks_holder
    → tasks_of p.gid (delete_task p s.tasks_holder).0 ≢ 0
    → IsServed s
    → (t : Sched) × (dequeue_task p s ≡ ok t)
      × (t.tasks_holder ≡ (delete_task p s.tasks_holder).0)
      × IsServed t
unfolding dequeue_task
dequeue-IsServed p s one others g =
    let count = delete_task-count p s.tasks_holder in
    let left : ((delete_task p s.tasks_holder).1 == 0) ≡ false = ground (arith, count) in
    (
      record { groups_holder = s.groups_holder; tasks_holder = (delete_task p s.tasks_holder).0 },
      rw left refl,
      refl,
      λ d. ground (
        arith,
        g d,
        delete_task-le p d s.tasks_holder,
        delete_task-tasks_of p d s.tasks_holder one,
      ),
    )

delete_group-fault : (d : ℕ) (gs : List Group) → groups_of d gs ≢ 0 → delete_group gs ≡ fault
unfolding delete_group
delete_group-fault d [] h = absurd (h refl)
delete_group-fault d (g ∷ gs) h = refl

-- Taking the last task of a gid out, where each gid with tasks has one group, is undefined behaviour:
-- dequeue_task_gwrr then reads behind the end of a group.
pub dequeue_task_fault :
    (p : Task) (s : Sched)
    → IsServed s
    → tasks_of p.gid s.tasks_holder ≢ 0
    → tasks_of p.gid (delete_task p s.tasks_holder).0 ≡ 0
    → dequeue_task p s ≡ fault
unfolding dequeue_task
dequeue_task_fault p s g here none_left =
    let count = delete_task-count p s.tasks_holder ∙ none_left in
    let listed : groups_of p.gid s.groups_holder ≢ 0 = λ z. ground (arith, g p.gid, z) in
    rw (count, delete_group-fault p.gid s.groups_holder listed) refl
