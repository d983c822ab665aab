-- ===== src/Gwrr/Reach.antt =====
-- The schedulers that the operations of hw4/sched_gwrr.c lead to, in any order.
use cs.Base.{
  ℕ, ◌<◌, ◌≡◌, ◌≢◌, refl, sym, subst, ◌∙◌, true, Option, none, some, List, [], ◌∷◌, arith,
}
use cs.Base.Outcome.{ok, ok-injective}
use cs.Gwrr.{Task, Group, Sched, enqueue_task, dequeue_task, pick_groups, pick_next_task}
use cs.Gwrr.Turns.{AreGroups}
use cs.Gwrr.Queueing.{Receives, held}
use cs.Gwrr.Invariant.{enqueue-AreGroups, dequeue-AreGroups, pick-AreGroups}

-- A task arrives at a queue that is empty or has a group of its gid, a task leaves, or a pick.
pub data Step (s : Sched) : Sched → Type 0 where
  arrives :
      (p : Task) (t : Sched)
      → Receives p.gid s.groups_holder
      → enqueue_task true p s ≡ ok t
      → Step s t
  leaves : (p : Task) → Step s (dequeue_task p s)
  picks : (p : Option Task) (t : Sched) → pick_next_task s ≡ ok (p, t) → Step s t

abbrev pub no_tasks : Sched
no_tasks = record { groups_holder = []; last = none; freed = [] }

pub data Reach : Sched → Type 0 where
  here : Reach no_tasks
  next : {s t : Sched} → Reach s → Step s t → Reach t

pick_nothing :
    (s t : Sched) (p : Option Task)
    → s.groups_holder ≡ []
    → pick_next_task s ≡ ok (p, t)
    → t.groups_holder ≡ []
unfolding pick_next_task pick_groups
pick_nothing s t p e run = ground (arith, e, run)

pick_step :
    (s t : Sched) (p : Option Task) (gs : List Group)
    → s.groups_holder ≡ gs
    → AreGroups gs
    → pick_next_task s ≡ ok (p, t)
    → AreGroups t.groups_holder
pick_step s t p [] e h run = rw (pick_nothing s t p e run) tt
pick_step s t p (g ∷ gs) e h run =
    let some_group : s.groups_holder ≢ [] = λ none_left. absurd (cc (e, none_left)) in
    let (p', s', run', well, _, _) = pick-AreGroups s (rw e h) some_group in
    subst (λ r. AreGroups r.1.groups_holder) (ok-injective (sym run' ∙ run)) well

Step-AreGroups : {s t : Sched} → Step s t → AreGroups s.groups_holder → AreGroups t.groups_holder
Step-AreGroups {s = s} (arrives p t received run) h =
    let (s', run', well, _) = enqueue-AreGroups p s h received in
    subst (λ u. AreGroups u.groups_holder) (ok-injective (sym run' ∙ run)) well
Step-AreGroups {s = s} (leaves p) h = dequeue-AreGroups p s h
Step-AreGroups {s = s} (picks p t run) h = pick_step s t p s.groups_holder refl h run

Reach-AreGroups : {s : Sched} → Reach s → AreGroups s.groups_holder
Reach-AreGroups here = tt
Reach-AreGroups (next r step) = Step-AreGroups step (Reach-AreGroups r)

-- In every scheduler that arrivals, departures and picks lead to, in any order, where each arrival meets an
-- empty queue or a group of its gid: a pick returns a task if there is a group, and that task stands in the
-- groups; every task stands in them as often as before; and the scheduler is again one of these.
pub Reach-picks :
    (s : Sched)
    → Reach s
    → s.groups_holder ≢ []
    → (p : Task) × (s' : Sched) × (pick_next_task s ≡ ok (some p, s'))
      × (0 < held p.pid s'.groups_holder)
      × ((pid : ℕ) → held pid s'.groups_holder ≡ held pid s.groups_holder)
      × Reach s'
Reach-picks s r ne =
    let (p, s', run, well, there, same) = pick-AreGroups s (Reach-AreGroups r) ne in
    (p, s', run, there, same, next r (picks (some p) s' run))
