-- ===== src/FlatGwrr/Agree.antt =====
-- Both versions of the scheduler, hw4/1105/sched_gwrr.c and hw4/sched_gwrr.c, pick the same task.
use cs.Base.{
  ℕ, ◌-◌, ◌≤◌, ◌≡◌, ◌≢◌, refl, sym, ap, subst, ◌∙◌, true, false, Option, none, some, List, [], ◌∷◌,
  ◌++◌, ◌==◌, arith, Bool-cases, inl, inr, get_elem?, set, map, append-nil,
}
use cs.Base.Outcome.{Outcome, ok}
use cs.Gwrr
use cs.Gwrr.Scan.{total_credit}
use cs.Gwrr.Turns.{pick-refilled, pick-credited}
use cs.FlatGwrr.{Task, Group, Sched, refill, take_turn, pick_next_task}
use cs.FlatGwrr.Served.{groups_of, tasks_of, IsServed}
use cs.FlatGwrr.Picks.{
  with_tasks, choose_lem, get-groups_of, scan-IsHeaviest, refill-credit, groups_of-refill,
  retry-stops, retry-goes_on,
}
use cs.FlatGwrr.Reach.{Reach, IsSteady, Reach-IsSteady}
use cs.FlatGwrr.Nested.{
  as_task, own, nest_group, nest, scan-nest, refill-nest, get-nest, own-append, choose-own,
  nest-set,
}

-- Both versions return `task`, and leave the same groups and tasks.
record Agreed (flat : Outcome (Option Task × Sched))
    (nested : Outcome (Option Gwrr.Task × List Gwrr.Group)) : Type 0 where
  task : Task
  groups : List Group
  tasks : List Task
  in_flat : flat ≡ ok (some task, record { groups_holder = groups; tasks_holder = tasks })
  in_nested : nested ≡ ok (some (as_task task), nest groups tasks)

take_turn-Agreed :
    (gs : List Group) (ts : List Task) (i : ℕ) (g : Group)
    → get_elem? gs i ≡ some g
    → groups_of g.gid gs ≤ 1
    → tasks_of g.gid ts ≢ 0
    → Agreed (take_turn ts (some i, gs)) (Gwrr.take_turn (some i) (nest gs ts))
unfolding take_turn Gwrr.take_turn
take_turn-Agreed gs ts i g there once some_task =
    let (t, rest, chosen, same) = choose_lem g.gid ts some_task in
    let (first, others) = choose-own g.gid ts rest t chosen same in
    let turned : Group = record g { curr_weight = g.curr_weight - 1 } in
    let us : List Task = rest ++ t ∷ [] in
    let is : (t.gid == g.gid) ≡ true = ground (arith, same) in
    let queue : own g.gid us ≡ own g.gid rest ++ as_task t ∷ [] =
      own-append g.gid rest (t ∷ []) ∙ rw is refl in
    let elsewhere : (c : ℕ) → c ≢ g.gid → own c us ≡ own c ts = λ c ne.
      (let isnt : (t.gid == c) ≡ false = ground (arith, same, ne) in
        own-append c rest (t ∷ []) ∙ rw isnt (append-nil (own c rest)) ∙ others c ne) in
    record {
      task = t;
      groups = set gs i turned;
      tasks = us;
      in_flat = rw (there, chosen) refl;
      in_nested =
          rw (get-nest gs ts i g there, first)
            (ap (λ l. ok (some (as_task t), l))
              (ap (λ q. set (nest gs ts) i (record (nest_group ts turned) { tasks_holder = q }))
                  (sym queue)
                ∙ sym (nest-set gs i g turned ts us there once elsewhere)));
    }

total_credit-nest :
    (gs : List Group) (ts : List Task)
    → total_credit (nest gs ts) ≡ total_credit (map with_tasks gs)
total_credit-nest [] ts = refl
total_credit-nest (g ∷ gs) ts = omega (arith, total_credit-nest gs ts)

-- With the groups that the pick sees: one with the gid, and a task of it.
turn-Agreed :
    (gs seen : List Group) (ts : List Task) (i : ℕ) (g : Group)
    → IsServed (record { groups_holder = gs; tasks_holder = ts })
    → ((d : ℕ) → groups_of d seen ≡ groups_of d gs)
    → get_elem? seen i ≡ some g
    → Agreed (take_turn ts (some i, seen)) (Gwrr.take_turn (some i) (nest seen ts))
turn-Agreed gs seen ts i g served same there =
    let count = same g.gid ∙ served g.gid in
    take_turn-Agreed seen ts i g there (ground (arith, count))
      (λ e. get-groups_of seen i g there (ground (arith, count, e)))

-- What the first pick of both versions comes to.
record IsAgreed (s : Sched) (nested : Outcome (Option Gwrr.Task × List Gwrr.Group)) : Type 0 where
  turn : Outcome (Option Task × Sched)
  ends : pick_next_task 2 s ≡ some turn
  agreed : Agreed turn nested

pick-IsAgreed :
    (h : Group) (hs : List Group) (q : Task) (qs : List Task)
    → IsSteady (record { groups_holder = h ∷ hs; tasks_holder = q ∷ qs })
    → IsAgreed
        (record { groups_holder = h ∷ hs; tasks_holder = q ∷ qs })
        (Gwrr.pick_groups (nest (h ∷ hs) (q ∷ qs)))
unfolding pick_next_task
pick-IsAgreed h hs q qs steady =
    let gs : List Group = h ∷ hs in
    let ts : List Task = q ∷ qs in
    elim (Bool-cases (total_credit (map with_tasks gs) == 0)) [
      | inl e ↦
          (let no_credit : total_credit (map with_tasks gs) ≡ 0 = ground (arith, e) in
            let (i, g, found, heavy, there) =
              scan-IsHeaviest (refill gs) (refill-credit h hs steady.weighted) in
            let refilled =
              pick-refilled (nest_group ts h) (nest hs ts) (total_credit-nest gs ts ∙ no_credit) in
            let place : (Gwrr.scan 0 0 none (nest (refill gs) ts)).1 ≡ some i =
              ap (λ o. o.1) (scan-nest ts 0 0 none (refill gs) ∙ found) in
            let nested : Gwrr.pick_groups (nest gs ts)
                ≡ Gwrr.take_turn (some i) (nest (refill gs) ts) =
              refilled
              ∙ ap (λ l. Gwrr.take_turn (Gwrr.scan 0 0 none l).1 l) (refill-nest gs ts)
              ∙ ap (λ o. Gwrr.take_turn o (nest (refill gs) ts)) place in
            record {
              turn = take_turn ts (some i, refill gs);
              ends =
                  rw
                    (retry-goes_on 1 gs no_credit
                      ∙ retry-stops 0 i g.curr_weight (refill gs) found heavy.positive)
                    refl;
              agreed = subst (Agreed (take_turn ts (some i, refill gs))) (sym nested) (
                  turn-Agreed gs (refill gs) ts i g steady.served (λ d. groups_of-refill d gs)
                    there);
            })
      | inr e ↦
          (let (i, g, found, heavy, there) = scan-IsHeaviest gs (λ z. ground (arith, e, z)) in
            let nested : Gwrr.pick_groups (nest gs ts) ≡ Gwrr.take_turn (some i) (nest gs ts) =
              pick-credited (nest_group ts h) (nest hs ts) i (nest_group ts g)
                (scan-nest ts 0 0 none gs ∙ found) heavy.positive in
            record {
              turn = take_turn ts (some i, gs);
              ends = rw (retry-stops 1 i g.curr_weight gs found heavy.positive) refl;
              agreed =
                  subst (Agreed (take_turn ts (some i, gs))) (sym nested)
                    (turn-Agreed gs gs ts i g steady.served (λ d. refl) there);
            })
    ]

-- In every scheduler of the version with one list of tasks that arrivals, departures and picks lead to, where
-- no gid loses its last task, and which has a task: sorted into their groups in their order, the groups and
-- tasks are ones from which the version with tasks in each group picks the same task, and what that
-- pick leaves are the groups and tasks that the pick of the flat version leaves, sorted likewise.
pub pick_next_task_agrees :
    (gs : List Group) (q : Task) (qs : List Task)
    → Reach (record { groups_holder = gs; tasks_holder = q ∷ qs })
    → (p : Task) × (gs' : List Group) × (ts' : List Task) × (pick_next_task 2
          (record { groups_holder = gs; tasks_holder = q ∷ qs })
        ≡ some (ok (some p, record { groups_holder = gs'; tasks_holder = ts' })))
      × (Gwrr.pick_groups (nest gs (q ∷ qs)) ≡ ok (some (as_task p), nest gs' ts'))
pick_next_task_agrees [] q qs r = absurd (ground (arith, (Reach-IsSteady r).served q.gid))
pick_next_task_agrees (h ∷ hs) q qs r =
    let both = pick-IsAgreed h hs q qs (Reach-IsSteady r) in
    let a = both.agreed in (a.task, a.groups, a.tasks, both.ends ∙ ap some a.in_flat, a.in_nested)
