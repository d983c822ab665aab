-- ===== src/FlatGwrr/Reach.antt =====
-- The schedulers that the operations of hw4/1105/sched_gwrr.c lead to, in any order.
use cs.Base.{
  ℕ, zero, suc, ◌-◌, ◌<◌, ◌≡◌, ◌≢◌, refl, sym, ap, subst, ◌∙◌, true, false, Option, none, some,
  List, [], ◌∷◌, ◌++◌, ◌==◌, if◌then◌else◌, arith, All-append, All-set, Bool-cases, inl, inr,
  All-get_elem?, get_elem?, set,
}
use cs.Base.Outcome.{Outcome, ok, ok-injective}
use cs.FlatGwrr.{
  Task, Group, Sched, new_group, stop_at, is_missing, enqueue_task, delete_task, dequeue_task,
  refill, choose, pick_next_task,
}
use cs.FlatGwrr.Served.{
  groups_of, tasks_of, IsServed, AgreesWith, delete_task-count, tasks_of-append, enqueue-IsServed,
  dequeue-IsServed,
}
use cs.FlatGwrr.Picks.{
  get-with_tasks, IsWeighted, Seen, as_is, refilled, Seen-groups_of, pick_next_task_lem,
}

-- What every operation keeps.
pub record IsSteady (s : Sched) : Type 0 where
  pub served : IsServed s
  pub weighted : IsWeighted s.groups_holder

-- A task arrives, a task leaves that is not the last one of its gid, or a pick with two rounds.
pub data Step (s : Sched) : Sched → Type 0 where
  arrives : (p : Task) (t : Sched) → enqueue_task true p s ≡ ok t → Step s t
  leaves :
      (p : Task) (t : Sched)
      → AgreesWith p s.tasks_holder
      → tasks_of p.gid (delete_task p s.tasks_holder).0 ≢ 0
      → dequeue_task p s ≡ ok t
      → Step s t
  picks : (p : Option Task) (t : Sched) → pick_next_task 2 s ≡ some (ok (p, t)) → Step s t

abbrev pub no_tasks : Sched
no_tasks = record { groups_holder = []; tasks_holder = [] }

pub data Reach : Sched → Type 0 where
  here : Reach no_tasks
  next : {s t : Sched} → Reach s → Step s t → Reach t

enqueue-IsWeighted :
    (p : Task) (s t : Sched)
    → IsWeighted s.groups_holder
    → enqueue_task true p s ≡ ok t
    → IsWeighted t.groups_holder
unfolding enqueue_task
enqueue-IsWeighted p s t h run =
    elim (Bool-cases (is_missing p.gid (stop_at p.gid none s.groups_holder))) [
      | inl e ↦
          subst (λ (u : Sched). IsWeighted u.groups_holder) (ok-injective (rw e at run))
            (All-append (λ (g : Group). 0 < g.weight) s.groups_holder (new_group p.gid ∷ []) h
              (omega arith, tt))
      | inr e ↦ subst (λ (u : Sched). IsWeighted u.groups_holder) (ok-injective (rw e at run)) h
    ]

dequeue-groups :
    (p : Task) (s t : Sched)
    → tasks_of p.gid (delete_task p s.tasks_holder).0 ≢ 0
    → dequeue_task p s ≡ ok t
    → t.groups_holder ≡ s.groups_holder
unfolding dequeue_task
dequeue-groups p s t ne run =
    let left : ((delete_task p s.tasks_holder).1 == 0) ≡ false =
      ground (arith, delete_task-count p s.tasks_holder, ne) in
    ap Sched.groups_holder (ok-injective (sym (rw left at run)))

-- The tasks behind what the last loop of a pick ends with.
abbrev pub put_back : Option (Task × List Task) → List Task
put_back none = []
put_back (some (t, rest)) = t ∷ rest

pub choose-put_back :
    (d gid : ℕ) (ts : List Task) → tasks_of d (put_back (choose gid ts)) ≡ tasks_of d ts
unfolding choose
choose-put_back d gid [] = refl
choose-put_back d gid (u ∷ ts) = go (choose gid ts) refl (choose-put_back d gid ts)
  where
    go :
        (o : Option (Task × List Task))
        → choose gid ts ≡ o
        → tasks_of d (put_back (choose gid ts)) ≡ tasks_of d ts
        → tasks_of d (put_back (choose gid (u ∷ ts))) ≡ tasks_of d (u ∷ ts)
    go none e same = rw e (omega (arith, (rw e at same)))
    go (some (t, rest)) found same = rw found (elim (Bool-cases (u.gid == gid)) [
      | inl e ↦ rw e refl
      | inr e ↦ rw e (omega (arith, (rw found at same)))
    ])

refill-IsWeighted : (gs : List Group) → IsWeighted gs → IsWeighted (refill gs)
refill-IsWeighted [] h = tt
refill-IsWeighted (g ∷ gs) h = (h.0, refill-IsWeighted gs h.1)

Seen-IsWeighted : (gs seen : List Group) → Seen gs seen → IsWeighted gs → IsWeighted seen
Seen-IsWeighted gs seen (as_is some_credit) h = h
Seen-IsWeighted gs seen (refilled no_credit) h = refill-IsWeighted gs h

groups_of-set :
    (d : ℕ) (gs : List Group) (i : ℕ) (g h : Group)
    → get_elem? gs i ≡ some g
    → h.gid ≡ g.gid
    → groups_of d (set gs i h) ≡ groups_of d gs
groups_of-set d [] i g h there same = refl
groups_of-set d (x ∷ gs) zero g h there same = ground arith
groups_of-set d (x ∷ gs) (suc i) g h there same = omega (arith, groups_of-set d gs i g h there same)

picked-IsWeighted :
    (gs seen : List Group) (i : ℕ) (g : Group)
    → Seen gs seen
    → IsWeighted gs
    → get_elem? seen i ≡ some g
    → IsWeighted (set seen i (record g { curr_weight = g.curr_weight - 1 }))
picked-IsWeighted gs seen i g saw w there =
    let w' = Seen-IsWeighted gs seen saw w in
    All-set (λ (k : Group). 0 < k.weight) seen i _ w'
      (All-get_elem? (λ (k : Group). 0 < k.weight) seen i w' there)

abbrev sched : List Group → List Task → Sched
sched gs ts = record { groups_holder = gs; tasks_holder = ts }

-- What a pick makes of the state.
record Picked (s : Sched) : Type 0 where
  task : Task
  after : Sched
  runs : pick_next_task 2 s ≡ some (ok (some task, after))
  steady : IsSteady after
  same_tasks : (d : ℕ) → tasks_of d after.tasks_holder ≡ tasks_of d s.tasks_holder

pick-Picked :
    (h : Group) (hs : List Group) (q : Task) (qs : List Task)
    → IsSteady (sched (h ∷ hs) (q ∷ qs))
    → Picked (sched (h ∷ hs) (q ∷ qs))
pick-Picked h hs q qs steady =
    let (seen, i, g, p, rest, saw, heavy, _, chosen, runs) =
      pick_next_task_lem 0 h hs q qs steady.weighted steady.served in
    let (k, there, same_group) = get-with_tasks seen i heavy.there in
    let g_there : get_elem? seen i ≡ some g = cc (there, same_group) in
    let moved : (d : ℕ) → tasks_of d (rest ++ p ∷ []) ≡ tasks_of d (q ∷ qs) = λ d. omega (
      arith,
      tasks_of-append d rest (p ∷ []),
      subst (λ o. tasks_of d (put_back o) ≡ tasks_of d (q ∷ qs)) chosen
          (choose-put_back d g.gid (q ∷ qs)),
    ) in
    record {
      task = p;
      after = sched (set seen i (record g { curr_weight = g.curr_weight - 1 })) (rest ++ p ∷ []);
      runs = runs;
      steady = record {
        served = λ d.
            groups_of-set d seen i g (record g { curr_weight = g.curr_weight - 1 }) g_there refl
            ∙ Seen-groups_of (h ∷ hs) seen d saw
            ∙ steady.served d
            ∙ ap (λ c. if c == 0 then 0 else 1) (sym (moved d));
        weighted = picked-IsWeighted (h ∷ hs) seen i g saw steady.weighted g_there;
      };
      same_tasks = moved;
    }

outcome_of :
    {o : Option (Outcome (Option Task × Sched))} {p q : Option Task} {s t : Sched}
    → o ≡ some (ok (p, s))
    → o ≡ some (ok (q, t))
    → s ≡ t
outcome_of e e' = cc

pick-IsSteady :
    (gs : List Group) (ts : List Task) (p : Option Task) (t : Sched)
    → IsSteady (sched gs ts)
    → pick_next_task 2 (sched gs ts) ≡ some (ok (p, t))
    → IsSteady t
unfolding pick_next_task
pick-IsSteady [] ts p t steady run = subst IsSteady (outcome_of refl run) steady
pick-IsSteady (h ∷ hs) [] p t steady run = subst IsSteady (outcome_of refl run) steady
pick-IsSteady (h ∷ hs) (q ∷ qs) p t steady run =
    let picked = pick-Picked h hs q qs steady in
    subst IsSteady (outcome_of picked.runs run) picked.steady

Step-IsSteady : {s t : Sched} → Step s t → IsSteady s → IsSteady t
Step-IsSteady {s = s} (arrives p t run) steady =
    let (t', run', served) = enqueue-IsServed p s steady.served in
    record {
      served = subst IsServed (ok-injective (sym run' ∙ run)) served;
      weighted = enqueue-IsWeighted p s t steady.weighted run;
    }
Step-IsSteady {s = s} (leaves p t one others run) steady =
    let (t', run', _, served) = dequeue-IsServed p s one others steady.served in
    record {
      served = subst IsServed (ok-injective (sym run' ∙ run)) served;
      weighted = subst IsWeighted (sym (dequeue-groups p s t others run)) steady.weighted;
    }
Step-IsSteady {s = s} (picks p t run) steady =
    pick-IsSteady s.groups_holder s.tasks_holder p t steady run

pub Reach-IsSteady : {s : Sched} → Reach s → IsSteady s
Reach-IsSteady here = record { served = λ d. refl; weighted = tt }
Reach-IsSteady (next r step) = Step-IsSteady step (Reach-IsSteady r)

a_group :
    (gs : List Group) (q : Task) (qs : List Task)
    → IsSteady (sched gs (q ∷ qs))
    → Picked (sched gs (q ∷ qs))
a_group [] q qs steady = absurd (ground (arith, steady.served q.gid))
a_group (h ∷ hs) q qs steady = pick-Picked h hs q qs steady

-- In every scheduler that arrivals, departures and picks lead to, in any order, where no gid loses its last
-- task: each gid has one group if it has tasks and none if not; with a task, a pick ends within two
-- rounds and returns one; every gid has as many tasks after it; and the scheduler is again one of these.
pub Reach-picks_in_two :
    (gs : List Group) (q : Task) (qs : List Task)
    → Reach (record { groups_holder = gs; tasks_holder = q ∷ qs })
    → IsServed (record { groups_holder = gs; tasks_holder = q ∷ qs })
      × (p : Task) × (s' : Sched) × (pick_next_task 2
            (record { groups_holder = gs; tasks_holder = q ∷ qs })
          ≡ some (ok (some p, s')))
      × ((d : ℕ) → tasks_of d s'.tasks_holder ≡ tasks_of d (q ∷ qs))
      × Reach s'
Reach-picks_in_two gs q qs r =
    let steady = Reach-IsSteady r in
    let picked = a_group gs q qs steady in
    (
      steady.served,
      picked.task,
      picked.after,
      picked.runs,
      picked.same_tasks,
      next r (picks (some picked.task) picked.after picked.runs),
    )
