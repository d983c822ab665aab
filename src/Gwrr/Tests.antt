-- ===== src/Gwrr/Tests.antt =====
-- Runs of the scheduling class of hw4/sched_gwrr.c.
use cs.Base.{
  ℕ, ◌+◌, ◌<◌, ◌≡◌, ◌≢◌, refl, true, false, Option, none, some, List, [], ◌∷◌, map, arith,
}
use cs.Base.Outcome.{ok, fault}
use cs.Gwrr.{
  Task, Group, Sched, enqueue_groups, enqueue_task, dequeue_groups, dequeue_task, pick_groups,
  pick_next_task,
}
use cs.Gwrr.Scan.{total_credit, share}
use cs.Gwrr.Turns.{AreGroups}
use cs.Gwrr.Turns.Fairness.{picks, turns_of, picks-share}
use cs.Gwrr.Queueing.{held, dequeue-enqueue, enqueue_stranded}
use cs.Gwrr.Reach.{Reach, here, next, arrives, no_tasks, Reach-picks}

abbrev task : ℕ → ℕ → Task
task pid gid = record { pid = pid; gid = gid }

-- Two tasks of gid 5 share 2 turns, one of gid 6 has 1.
abbrev pair : List Group
pair =
    record { weight = 2; curr_weight = 2; gid = 5; tasks_holder = task 1 5 ∷ task 2 5 ∷ [] }
    ∷ record { weight = 1; curr_weight = 1; gid = 6; tasks_holder = task 3 6 ∷ [] }
    ∷ []

abbrev sched : Sched
sched = record { groups_holder = pair; last = none; freed = [] }

pair-AreGroups : AreGroups pair
pair-AreGroups = (
  record {
    weighted = omega arith;
    within = omega arith;
    occupied = λ c. cc;
    own = (refl, (refl, tt));
  },
  (
    record { weighted = omega arith; within = omega arith; occupied = λ c. cc; own = (refl, tt) },
    tt,
  ),
)

pair-ne-nil : pair ≢ []
pair-ne-nil c = cc

-- After the three turns of `pair` all credit is gone, and the fourth pick refills it.
picks-pair :
    picks 4 pair
    ≡ ok (
      some (task 1 5) ∷ some (task 2 5) ∷ some (task 3 6) ∷ some (task 1 5) ∷ [],
      record { weight = 2; curr_weight = 1; gid = 5; tasks_holder = task 2 5 ∷ task 1 5 ∷ [] }
          ∷ record { weight = 1; curr_weight = 1; gid = 6; tasks_holder = task 3 6 ∷ [] }
          ∷ [],
    )
unfolding picks pick_groups
picks-pair = refl

enqueue_no_memory : enqueue_task false (task 1 5) (record sched { groups_holder = [] }) ≡ fault
unfolding enqueue_task enqueue_groups
enqueue_no_memory = refl

picks-share_example :
    (tasks : List (Option Task)) × (after : List Group) × (picks 3 pair ≡ ok (tasks, after))
    × ((d : ℕ) → turns_of d tasks ≡ share d pair)
    × (total_credit after ≡ 0)
picks-share_example = picks-share pair pair-AreGroups pair-ne-nil (refl, (refl, tt))

dequeue-enqueue_example :
    (s' : Sched) × (enqueue_task true (task 9 6) sched ≡ ok s')
    × (dequeue_task (task 9 6) s' ≡ record sched { last = none; freed = 9 ∷ [] })
dequeue-enqueue_example = dequeue-enqueue (task 9 6) sched pair-AreGroups refl

-- A task of gid 7 lands in the group of gid 6.
enqueue_stranded_example :
    (gs' : List Group) × (enqueue_groups true (task 9 7) pair ≡ ok gs')
    × (map (λ x. x.gid) gs' ≡ 5 ∷ 6 ∷ [])
    × (held 9 gs' ≡ held 9 pair + 1)
    × (dequeue_groups (task 9 7) gs' ≡ (gs', []))
enqueue_stranded_example = enqueue_stranded true (task 9 7) _ _ refl

-- The first task arrives.
abbrev one_task : Sched
one_task = record {
  groups_holder =
      record { weight = 10; curr_weight = 10; gid = 5; tasks_holder = task 1 5 ∷ [] } ∷ [];
  last = some 1;
  freed = [];
}

enqueue_task-no_tasks : enqueue_task true (task 1 5) no_tasks ≡ ok one_task
unfolding enqueue_task enqueue_groups
enqueue_task-no_tasks = refl

one_task-Reach : Reach one_task
one_task-Reach = next here (arrives (task 1 5) one_task tt enqueue_task-no_tasks)

Reach-picks_example :
    (p : Task) × (s' : Sched) × (pick_next_task one_task ≡ ok (some p, s'))
    × (0 < held p.pid s'.groups_holder)
    × ((pid : ℕ) → held pid s'.groups_holder ≡ held pid one_task.groups_holder)
    × Reach s'
Reach-picks_example = Reach-picks one_task one_task-Reach (λ c. cc)
