-- ===== src/FlatGwrr/Tests.antt =====
-- Runs of the operations of hw4/1105/sched_gwrr.c.
use cs.Base.{ℕ, ◌≡◌, refl, true, some, List, [], ◌∷◌, arith}
use cs.Base.Outcome.{ok}
use cs.FlatGwrr.{
  Task, Group, Sched, stop_at, new_group, enqueue_task, delete_task, dequeue_task, scan, retry,
  choose, take_turn, pick_next_task,
}
use cs.FlatGwrr.Served.{IsServed, tasks_of}
use cs.Gwrr
use cs.FlatGwrr.Nested.{as_task, nest}
use cs.FlatGwrr.Agree.{pick_next_task_agrees}
use cs.FlatGwrr.Reach.{Reach, here, next, arrives, leaves, no_tasks, Reach-picks_in_two}

abbrev jim : Task
jim = record { pid = 7; gid = 1 }

abbrev pat : Task
pat = record { pid = 8; gid = 2 }

abbrev two_groups : Sched
two_groups = record {
  groups_holder = new_group 1 ∷ new_group 2 ∷ [];
  tasks_holder = jim ∷ pat ∷ [];
}

two_groups-IsServed : IsServed two_groups
two_groups-IsServed d = ground arith

-- Another task of the group of `jim`.
abbrev sam : Task
sam = record { pid = 10; gid = 1 }

abbrev three_tasks : Sched
three_tasks = record two_groups { tasks_holder = jim ∷ pat ∷ sam ∷ [] }

three_tasks-IsServed : IsServed three_tasks
three_tasks-IsServed d = ground arith

dequeue_task-sam : dequeue_task sam three_tasks ≡ ok two_groups
unfolding dequeue_task delete_task
dequeue_task-sam = refl

pick_next_task-two_groups :
    pick_next_task 2 two_groups
    ≡ some (
        ok (
          some jim,
          record {
            groups_holder = record (new_group 1) { curr_weight = 9 } ∷ new_group 2 ∷ [];
            tasks_holder = pat ∷ jim ∷ [];
          },
        ))
unfolding pick_next_task retry scan take_turn choose
pick_next_task-two_groups = refl

-- The first task arrives.
abbrev only_jim : Sched
only_jim = record { groups_holder = new_group 1 ∷ []; tasks_holder = jim ∷ [] }

enqueue_task-no_tasks : enqueue_task true jim no_tasks ≡ ok only_jim
unfolding enqueue_task stop_at
enqueue_task-no_tasks = refl

-- After it another task of its gid arrives and leaves again.
jim_and_sam : Reach only_jim
unfolding enqueue_task stop_at dequeue_task delete_task
jim_and_sam =
    next
      (next (next here (arrives jim only_jim enqueue_task-no_tasks))
        (arrives sam (record only_jim { tasks_holder = jim ∷ sam ∷ [] }) refl))
      (leaves sam only_jim ((λ e. refl), ((λ e. refl), tt)) (λ e. omega (arith, e)) refl)

Reach-picks_in_two_example :
    IsServed only_jim
    × (p : Task) × (s' : Sched) × (pick_next_task 2 only_jim ≡ some (ok (some p, s')))
    × ((d : ℕ) → tasks_of d s'.tasks_holder ≡ tasks_of d (jim ∷ []))
    × Reach s'
Reach-picks_in_two_example = Reach-picks_in_two (new_group 1 ∷ []) jim [] jim_and_sam

pick_next_task_agrees_example :
    (p : Task) × (gs' : List Group) × (ts' : List Task) × (pick_next_task 2 only_jim
      ≡ some (ok (some p, record { groups_holder = gs'; tasks_holder = ts' })))
    × (Gwrr.pick_groups (nest (new_group 1 ∷ []) (jim ∷ [])) ≡ ok (some (as_task p), nest gs' ts'))
pick_next_task_agrees_example = pick_next_task_agrees (new_group 1 ∷ []) jim [] jim_and_sam
