-- ===== src/Gwrr/Invariant.antt =====
-- The operations of hw4/sched_gwrr.c keep the groups well-formed, and pick_next_task_gwrr keeps every
-- task.
use cs.Base.{
  ℕ, zero, suc, ◌+◌, ◌≤◌, ◌<◌, ◌≡◌, ◌≢◌, inl, inr, refl, sym, ap, ◌∙◌, Bool, true, Option, some,
  List, [], ◌∷◌, ◌++◌, ◌==◌, ==_refl, if◌then◌else◌, get_elem?, set, arith, All, Bool-cases,
}
use cs.Base.Outcome.{Outcome, ok}
use cs.Gwrr.{
  Task, Group, Sched, add_task, add_to_found, new_group, enqueue_groups, enqueue_task, delete_task,
  drop_empty, dequeue_groups, dequeue_task, pick_groups, pick_next_task, refill,
}
use cs.Gwrr.Scan.{total_credit}
use cs.Gwrr.Turns.{
  IsGroup, AreGroups, funded, turned, Turn, All-get, AreGroups-funded, pick_groups_lem,
}
use cs.Gwrr.Turns.Fairness.{All-set, IsGroup-turned}
use cs.Gwrr.Queueing.{has_gid, Receives, listed, held}

IsGroup-add_task : (p : Task) (g : Group) → IsGroup g → g.gid ≡ p.gid → IsGroup (add_task p g)
IsGroup-add_task p g h e = record {
  weighted = h.weighted;
  within = h.within;
  occupied = λ c. cc;
  own = (sym e, h.own);
}

AreGroups-add_to_found :
    (p : Task) (gs : List Group)
    → AreGroups gs
    → has_gid p.gid gs ≡ true
    → AreGroups (add_to_found p gs)
unfolding add_to_found
AreGroups-add_to_found p [] h r = tt
AreGroups-add_to_found p (g ∷ []) h r = (IsGroup-add_task p g h.0 (ground arith), tt)
AreGroups-add_to_found p (g ∷ x ∷ gs) h r = elim (Bool-cases (g.gid == p.gid)) [
  | inl same ↦ rw same (IsGroup-add_task p g h.0 (ground arith), h.1)
  | inr other ↦
      (let ih = AreGroups-add_to_found p (x ∷ gs) h.1 (ground arith) in rw other (h.0, ih))
]

new-IsGroup : (p : Task) → IsGroup (new_group p)
new-IsGroup p = record {
  weighted = omega arith;
  within = omega arith;
  occupied = λ c. cc;
  own = (refl, tt);
}

enqueue-nil : (p : Task) → enqueue_groups true p [] ≡ ok (new_group p ∷ [])
unfolding enqueue_groups
enqueue-nil p = refl

enqueue-cons :
    (room : Bool) (p : Task) (g : Group) (gs : List Group)
    → enqueue_groups room p (g ∷ gs) ≡ ok (add_to_found p (g ∷ gs))
unfolding enqueue_groups
enqueue-cons room p g gs = refl

-- A task that an empty queue or a group of its gid receives leaves the groups well-formed.
pub enqueue-AreGroups :
    (p : Task) (s : Sched)
    → AreGroups s.groups_holder
    → Receives p.gid s.groups_holder
    → (s' : Sched) × (enqueue_task true p s ≡ ok s')
      × AreGroups s'.groups_holder
      × (s'.last ≡ some p.pid)
unfolding enqueue_task
enqueue-AreGroups p s h r =
    let (gs, put, well) = go s.groups_holder h r in
    (record s { groups_holder = gs; last = some p.pid }, rw put, well, refl)
  where
    go :
        (gs : List Group)
        → AreGroups gs
        → Receives p.gid gs
        → (gs' : List Group) × (enqueue_groups true p gs ≡ ok gs') × AreGroups gs'
    go [] h r = (new_group p ∷ [], enqueue-nil p, (new-IsGroup p, tt))
    go (g ∷ gs) h r =
        (add_to_found p (g ∷ gs), enqueue-cons true p g gs, AreGroups-add_to_found p (g ∷ gs) h r)

All-delete :
    (d pid : ℕ) (l : List Task)
    → All (λ t. t.gid ≡ d) l
    → All (λ t. t.gid ≡ d) (delete_task pid l).0
unfolding delete_task
All-delete d pid [] h = tt
All-delete d pid (t ∷ l) h = elim (Bool-cases (t.pid == pid)) [
  | inl same ↦ rw same h.1
  | inr other ↦ rw other (h.0, All-delete d pid l h.1)
]

AreGroups-drop_empty :
    (g : Group) (gs : List Group) (o : List Task × List ℕ)
    → IsGroup g
    → AreGroups gs
    → All (λ t. t.gid ≡ g.gid) o.0
    → AreGroups (drop_empty g gs o).0
AreGroups-drop_empty g gs ([], freed) h hs own = hs
AreGroups-drop_empty g gs (t ∷ ts, freed) h hs own =
    (record { weighted = h.weighted; within = h.within; occupied = λ c. cc; own = own }, hs)

AreGroups-dequeue : (p : Task) (gs : List Group) → AreGroups gs → AreGroups (dequeue_groups p gs).0
unfolding dequeue_groups
AreGroups-dequeue p [] h = tt
AreGroups-dequeue p (g ∷ gs) h = elim (Bool-cases (g.gid == p.gid)) [
  | inl same ↦ rw same (
      AreGroups-drop_empty g gs (delete_task p.pid g.tasks_holder) h.0 h.1
        (All-delete g.gid p.pid g.tasks_holder h.0.own))
  | inr other ↦ rw other (h.0, AreGroups-dequeue p gs h.1)
]

-- A dequeue leaves the groups well-formed: in particular it takes out a group with its last task, so
-- that no pick meets an empty group.
pub dequeue-AreGroups :
    (p : Task) (s : Sched) → AreGroups s.groups_holder → AreGroups (dequeue_task p s).groups_holder
unfolding dequeue_task
dequeue-AreGroups p s h = AreGroups-dequeue p s.groups_holder h

listed-snoc :
    (pid : ℕ) (l : List Task) (t : Task)
    → listed pid (l ++ (t ∷ [])) ≡ listed pid l + (if t.pid == pid then 1 else 0)
listed-snoc pid [] t = omega arith
listed-snoc pid (x ∷ l) t = omega (arith, listed-snoc pid l t)

held-set :
    (pid : ℕ) (gs : List Group) (i : ℕ) (g g' : Group)
    → get_elem? gs i ≡ some g
    → listed pid g'.tasks_holder ≡ listed pid g.tasks_holder
    → held pid (set gs i g') ≡ held pid gs
held-set pid [] i g g' e same = cc
held-set pid (x ∷ gs) zero g g' e same = let here : x ≡ g = cc in rw here (omega arith)
held-set pid (x ∷ gs) (suc i) g g' e same = omega (arith, held-set pid gs i g g' e same)

held-refill : (pid : ℕ) (gs : List Group) → held pid (refill gs) ≡ held pid gs
unfolding refill
held-refill pid [] = refl
held-refill pid (g ∷ gs) = omega (arith, held-refill pid gs)

held-funded : (pid : ℕ) (gs : List Group) → held pid (funded gs) ≡ held pid gs
held-funded pid gs = elim (Bool-cases (total_credit gs == 0)) [
  | inl e ↦ rw e (held-refill pid gs)
  | inr e ↦ rw e
]

listed-turned :
    (pid : ℕ) (g : Group) (p : Task) (ts : List Task)
    → g.tasks_holder ≡ p ∷ ts
    → listed pid (ts ++ (p ∷ [])) ≡ listed pid g.tasks_holder
listed-turned pid g p ts e = rw e (listed-snoc pid ts p ∙ omega arith)

listed_self : (p : Task) (ts : List Task) → 0 < listed p.pid (p ∷ ts)
listed_self p ts = rw (==_refl p.pid) (omega arith)

held-ge_get :
    (pid : ℕ) (gs : List Group) (i : ℕ) (g : Group)
    → get_elem? gs i ≡ some g
    → listed pid g.tasks_holder ≤ held pid gs
held-ge_get pid [] i g e = cc
held-ge_get pid (x ∷ gs) zero g e = let here : x ≡ g = cc in rw here (omega arith)
held-ge_get pid (x ∷ gs) (suc i) g e = omega (arith, held-ge_get pid gs i g e)

-- What a turn leaves.
Turn-keeps :
    (gs : List Group) (out : Outcome (Option Task × List Group)) (t : Turn gs out)
    → AreGroups gs
    → AreGroups (set (funded gs) t.place (turned t.group t.task t.others))
      × (0 < held t.task.pid gs)
      × ((pid : ℕ)
          → held pid (set (funded gs) t.place (turned t.group t.task t.others)) ≡ held pid gs)
Turn-keeps gs out t h = (
  All-set IsGroup (funded gs) t.place _ well
      (IsGroup-turned t.group t.task t.others
        (All-get IsGroup (funded gs) t.place t.group well t.heaviest.there) t.queue).0,
  omega (
    arith,
    held-funded t.task.pid gs,
    held-ge_get t.task.pid (funded gs) t.place t.group t.heaviest.there,
    ap (listed t.task.pid) t.queue,
    listed_self t.task t.others,
  ),
  λ pid.
      held-set pid (funded gs) t.place t.group (turned t.group t.task t.others) t.heaviest.there
        (listed-turned pid t.group t.task t.others t.queue)
      ∙ held-funded pid gs,
)
  where
    well : AreGroups (funded gs)
    well = AreGroups-funded gs h

-- A pick on well-formed groups, not none, returns a task that stands in the groups, leaves every task
-- in them as often as it was, and leaves them well-formed.
pub pick-AreGroups :
    (s : Sched)
    → AreGroups s.groups_holder
    → s.groups_holder ≢ []
    → (p : Task) × (s' : Sched) × (pick_next_task s ≡ ok (some p, s'))
      × AreGroups s'.groups_holder
      × (0 < held p.pid s'.groups_holder)
      × ((pid : ℕ) → held pid s'.groups_holder ≡ held pid s.groups_holder)
unfolding pick_next_task
pick-AreGroups s h ne = go s.groups_holder refl h ne
  where
    go :
        (gs : List Group)
        → s.groups_holder ≡ gs
        → AreGroups gs
        → gs ≢ []
        → (p : Task) × (s' : Sched) × (pick_next_task s ≡ ok (some p, s'))
          × AreGroups s'.groups_holder
          × (0 < held p.pid s'.groups_holder)
          × ((pid : ℕ) → held pid s'.groups_holder ≡ held pid s.groups_holder)
    go [] e well some_group = absurd (some_group refl)
    go (g ∷ gs) e well some_group =
        let t : Turn (g ∷ gs) (pick_groups (g ∷ gs)) = pick_groups_lem g gs well in
        let (kept, there, same) = Turn-keeps (g ∷ gs) (pick_groups (g ∷ gs)) t well in
        (
          t.task,
          record s {
            groups_holder = set (funded (g ∷ gs)) t.place (turned t.group t.task t.others);
          },
          rw (e, t.returns),
          kept,
          omega (arith, there, same t.task.pid),
          λ pid. same pid ∙ ap (held pid) (sym e),
        )
