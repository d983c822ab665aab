-- ===== src/Gwrr/Queueing.antt =====
-- What enqueue_task_gwrr and dequeue_task_gwrr of hw4/sched_gwrr.c do to the groups.
use cs.Base.{
  ℕ, ◌+◌, ◌≡◌, ◌≢◌, inl, inr, refl, ap, ◌∙◌, Bool, true, false, none, some, List, [], ◌∷◌, map,
  ◌==◌, ==_refl, if◌then◌else◌, arith, Bool-cases,
}
use cs.Base.Outcome.{ok}
use cs.Gwrr.{
  Task, Group, Sched, add_task, add_to_found, new_group, enqueue_groups, enqueue_task, delete_task,
  drop_empty, dequeue_groups, dequeue_task, clear_last,
}
use cs.Gwrr.Turns.{AreGroups}

-- Some group is of the gid.
abbrev pub has_gid : ℕ → List Group → Bool
has_gid d [] = false
has_gid d (g ∷ gs) = if g.gid == d then true else has_gid d gs

delete-add :
    (p : Task) (g : Group) → delete_task p.pid (p ∷ g.tasks_holder) ≡ (g.tasks_holder, p.pid ∷ [])
unfolding delete_task
delete-add p g = rw (==_refl p.pid)

drop_empty-occupied :
    (g : Group) (gs : List Group) (l : List Task) (freed : List ℕ)
    → l ≢ []
    → drop_empty g gs (l, freed) ≡ (record g { tasks_holder = l } ∷ gs, freed)
drop_empty-occupied g gs [] freed h = absurd (h refl)
drop_empty-occupied g gs (t ∷ l) freed h = refl

-- Taking the task out of the group that it was just put in.
dequeue-add :
    (p : Task) (g : Group) (gs : List Group)
    → g.gid ≡ p.gid
    → g.tasks_holder ≢ []
    → dequeue_groups p (add_task p g ∷ gs) ≡ (g ∷ gs, p.pid ∷ [])
unfolding dequeue_groups
dequeue-add p g gs same occupied = rw (
  tested,
  delete-add p g,
  drop_empty-occupied (add_task p g) gs g.tasks_holder (p.pid ∷ []) occupied,
)
  where
    tested : (g.gid == p.gid) ≡ true
    tested = ground arith

dequeue-skip :
    (p : Task) (g : Group) (gs : List Group)
    → (g.gid == p.gid) ≡ false
    → dequeue_groups p (g ∷ gs) ≡ (g ∷ (dequeue_groups p gs).0, (dequeue_groups p gs).1)
unfolding dequeue_groups
dequeue-skip p g gs other = rw other

dequeue-add_to_found :
    (p : Task) (gs : List Group)
    → AreGroups gs
    → has_gid p.gid gs ≡ true
    → dequeue_groups p (add_to_found p gs) ≡ (gs, p.pid ∷ [])
unfolding add_to_found
dequeue-add_to_found p [] h found = cc
dequeue-add_to_found p (g ∷ []) h found = dequeue-add p g [] (ground arith) h.0.occupied
dequeue-add_to_found p (g ∷ x ∷ gs) h found = elim (Bool-cases (g.gid == p.gid)) [
  | inl same ↦ rw same (dequeue-add p g (x ∷ gs) (ground arith) h.0.occupied)
  | inr other ↦
      (let ih = dequeue-add_to_found p (x ∷ gs) h.1 (ground arith) in
        rw other (
          dequeue-skip p g (add_to_found p (x ∷ gs)) other
          ∙ ap (λ (o : List Group × List ℕ). (g ∷ o.0, o.1)) ih))
]

dequeue-new : (p : Task) → dequeue_groups p (new_group p ∷ []) ≡ ([], p.pid ∷ [])
unfolding dequeue_groups delete_task
dequeue-new p = rw (==_refl p.gid, ==_refl p.pid)

-- How often a task stands in a list, and in the groups.
abbrev pub listed : ℕ → List Task → ℕ
listed pid [] = 0
listed pid (t ∷ ts) = (if t.pid == pid then 1 else 0) + listed pid ts

abbrev pub held : ℕ → List Group → ℕ
held pid [] = 0
held pid (g ∷ gs) = listed pid g.tasks_holder + held pid gs

held-add_to_found :
    (pid : ℕ) (p : Task) (gs : List Group)
    → gs ≢ []
    → held pid (add_to_found p gs) ≡ held pid gs + (if p.pid == pid then 1 else 0)
unfolding add_to_found
held-add_to_found pid p [] h = absurd (h refl)
held-add_to_found pid p (g ∷ []) h = omega arith
held-add_to_found pid p (g ∷ x ∷ gs) h = ground (arith, held-add_to_found pid p (x ∷ gs) (λ c. cc))

-- What is asked of a queue before a task is put in: it is empty, or has a group of the task's gid.
abbrev pub Receives : ℕ → List Group → Type 0
Receives d [] = Unit
Receives d (g ∷ gs) = has_gid d (g ∷ gs) ≡ true

clear_last_self : (pid : ℕ) → clear_last (some pid) pid ≡ none
clear_last_self pid = rw (==_refl pid)

dequeue-enqueue_groups :
    (p : Task) (gs : List Group)
    → AreGroups gs
    → Receives p.gid gs
    → (gs' : List Group) × (enqueue_groups true p gs ≡ ok gs')
      × (dequeue_groups p gs' ≡ (gs, p.pid ∷ []))
unfolding enqueue_groups
dequeue-enqueue_groups p [] h r = (new_group p ∷ [], refl, dequeue-new p)
dequeue-enqueue_groups p (g ∷ gs) h r =
    (add_to_found p (g ∷ gs), refl, dequeue-add_to_found p (g ∷ gs) h r)

-- A task that is put into an empty queue, or into one with a group of its gid, and taken out again
-- leaves the groups as they were. Its task_struct is freed on the way.
pub dequeue-enqueue :
    (p : Task) (s : Sched)
    → AreGroups s.groups_holder
    → Receives p.gid s.groups_holder
    → (s' : Sched) × (enqueue_task true p s ≡ ok s')
      × (dequeue_task p s' ≡ record s { last = none; freed = p.pid ∷ s.freed })
unfolding enqueue_task dequeue_task
dequeue-enqueue p s h r =
    let (gs, put, taken) = dequeue-enqueue_groups p s.groups_holder h r in
    (record s { groups_holder = gs; last = some p.pid }, rw put, rw (taken, clear_last_self p.pid))

gids-add_to_found :
    (p : Task) (gs : List Group) → map (λ g. g.gid) (add_to_found p gs) ≡ map (λ g. g.gid) gs
unfolding add_to_found
gids-add_to_found p [] = refl
gids-add_to_found p (g ∷ []) = refl
gids-add_to_found p (g ∷ h ∷ gs) = ground (arith, gids-add_to_found p (h ∷ gs))

dequeue-absent :
    (p : Task) (gs : List Group) → has_gid p.gid gs ≡ false → dequeue_groups p gs ≡ (gs, [])
unfolding dequeue_groups
dequeue-absent p [] h = refl
dequeue-absent p (g ∷ gs) h = ground (arith, dequeue-absent p gs)

has_gid-add_to_found :
    (d : ℕ) (p : Task) (gs : List Group) → has_gid d (add_to_found p gs) ≡ has_gid d gs
unfolding add_to_found
has_gid-add_to_found d p [] = refl
has_gid-add_to_found d p (g ∷ []) = refl
has_gid-add_to_found d p (g ∷ h ∷ gs) = ground (arith, has_gid-add_to_found d p (h ∷ gs))

-- A task whose gid has no group, put into a queue that is not empty, gets no group: the gids stay as
-- they were, the task is in the queue once more, and dequeue does not find it there again.
pub enqueue_stranded :
    (room : Bool) (p : Task) (g : Group) (gs : List Group)
    → has_gid p.gid (g ∷ gs) ≡ false
    → (gs' : List Group) × (enqueue_groups room p (g ∷ gs) ≡ ok gs')
      × (map (λ x. x.gid) gs' ≡ map (λ x. x.gid) (g ∷ gs))
      × (held p.pid gs' ≡ held p.pid (g ∷ gs) + 1)
      × (dequeue_groups p gs' ≡ (gs', []))
unfolding enqueue_groups
enqueue_stranded room p g gs absent = (
  add_to_found p (g ∷ gs),
  refl,
  gids-add_to_found p (g ∷ gs),
  held-add_to_found p.pid p (g ∷ gs) (λ c. cc) ∙ ground arith,
  dequeue-absent p (add_to_found p (g ∷ gs)) (has_gid-add_to_found p.gid p (g ∷ gs) ∙ absent),
)
