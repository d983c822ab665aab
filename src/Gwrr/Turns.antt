-- ===== src/Gwrr/Turns.antt =====
-- What pick_next_task_gwrr of hw4/sched_gwrr.c does on well-formed groups, and how a run of picks
-- divides the turns among them.
pub mod Fairness
use cs.Base.{
  ℕ, zero, suc, ◌+◌, ◌-◌, ◌≤◌, ◌<◌, ◌≡◌, ◌≢◌, ◌⊎◌, inl, inr, refl, sym, ap, subst, ◌∙◌, Bool, true,
  false, Option, none, some, List, [], ◌∷◌, ◌++◌, map, ltb, ◌==◌, if◌then◌else◌, get_elem?, set,
  arith, All, All-append, Bool-cases,
}
use cs.Base.Outcome.{Outcome, ok, fault, ◌>>=◌, deref}
use cs.Gwrr.{
  Task, Group, Sched, scan, refill, refill_group, rotate, take_turn, pick_groups, pick_next_task,
}
use cs.Gwrr.Scan.{total_credit, credit, share, IsHeaviest, scan_lem, scan-none}

-- A group has a weight, no more credit than that, at least one task, and tasks of its own gid.
pub record IsGroup (g : Group) : Type 0 where
  pub weighted : 0 < g.weight
  pub within : g.curr_weight ≤ g.weight
  pub occupied : g.tasks_holder ≢ []
  pub own : All (λ t. t.gid ≡ g.gid) g.tasks_holder

abbrev pub AreGroups : List Group → Type 0
AreGroups = All IsGroup

-- The groups that the turn is taken from: refilled if no credit is left.
abbrev pub funded : List Group → List Group
funded gs = if total_credit gs == 0 then refill gs else gs

abbrev pub turned : Group → Task → List Task → Group
turned g p ts = record g { curr_weight = g.curr_weight - 1; tasks_holder = ts ++ (p ∷ []) }

-- A turn: the group with the largest credit pays one for its first task, which goes to its tail.
pub record Turn (gs : List Group) (out : Outcome (Option Task × List Group)) : Type 0 where
  pub place : ℕ
  pub group : Group
  pub task : Task
  pub others : List Task
  pub heaviest : IsHeaviest (funded gs) place group
  pub queue : group.tasks_holder ≡ task ∷ others
  pub returns : out ≡ ok (some task, set (funded gs) place (turned group task others))

pub All-get {ℓ} :
    (P : Group → Type ℓ) (gs : List Group) (i : ℕ) (g : Group)
    → All P gs
    → get_elem? gs i ≡ some g
    → P g
All-get P [] i g h e = cc
All-get P (x ∷ gs) zero g h e = let same : x ≡ g = cc in subst P same h.0
All-get P (x ∷ gs) (suc i) g h e = All-get P gs i g h.1 e

AreGroups-refill : (gs : List Group) → AreGroups gs → AreGroups (refill gs)
unfolding refill
AreGroups-refill [] h = tt
AreGroups-refill (g ∷ gs) h = (
  record { weighted = h.0.weighted; within = omega arith; occupied = h.0.occupied; own = h.0.own },
  AreGroups-refill gs h.1,
)

pub credit-refill : (d : ℕ) (gs : List Group) → credit d (refill gs) ≡ share d gs
unfolding refill
credit-refill d [] = refl
credit-refill d (g ∷ gs) = ap (λ n. (if g.gid == d then g.weight else 0) + n) (credit-refill d gs)

refilled : (g : Group) (gs : List Group) → IsGroup g → total_credit (refill (g ∷ gs)) ≢ 0
unfolding refill
refilled g gs h e = omega (arith, h.weighted)

pub AreGroups-funded : (gs : List Group) → AreGroups gs → AreGroups (funded gs)
AreGroups-funded gs h = elim (Bool-cases (total_credit gs == 0)) [
  | inl e ↦ rw e (AreGroups-refill gs h)
  | inr e ↦ rw e h
]

take_turn_at :
    (gs : List Group) (i : ℕ) (g : Group) (p : Task) (ts : List Task)
    → get_elem? gs i ≡ some g
    → g.tasks_holder ≡ p ∷ ts
    → take_turn (some i) gs ≡ ok (some p, set gs i (turned g p ts))
unfolding take_turn
take_turn_at gs i g p ts there e = ground arith

take_turn_lem :
    (gs : List Group) (i : ℕ) (g : Group)
    → AreGroups gs
    → IsHeaviest gs i g
    → (p : Task) × (ts : List Task) × (g.tasks_holder ≡ p ∷ ts)
      × (take_turn (some i) gs ≡ ok (some p, set gs i (turned g p ts)))
take_turn_lem gs i g h top = go g.tasks_holder refl
  where
    go :
        (l : List Task)
        → g.tasks_holder ≡ l
        → (p : Task) × (ts : List Task) × (g.tasks_holder ≡ p ∷ ts)
          × (take_turn (some i) gs ≡ ok (some p, set gs i (turned g p ts)))
    go [] e = absurd ((All-get IsGroup gs i g h top.there).occupied e)
    go (p ∷ ts) e = (p, ts, e, take_turn_at gs i g p ts top.there e)

pub pick-refilled :
    (g : Group) (gs : List Group)
    → total_credit (g ∷ gs) ≡ 0
    → pick_groups (g ∷ gs) ≡ take_turn (scan 0 0 none (refill (g ∷ gs))).1 (refill (g ∷ gs))
unfolding pick_groups
pick-refilled g gs e = rw (scan-none (g ∷ gs) e)

pub pick-credited :
    (g : Group) (gs : List Group) (i : ℕ) (h : Group)
    → scan 0 0 none (g ∷ gs) ≡ (h.curr_weight, some i)
    → 0 < h.curr_weight
    → pick_groups (g ∷ gs) ≡ take_turn (some i) (g ∷ gs)
unfolding pick_groups
pick-credited g gs i h e pos = ground arith

-- On well-formed groups, not none, a pick is defined and is a turn: it returns a task, the first of
-- a group whose credit is largest, and only when no group has credit left are all refilled first.
pub pick_groups_lem :
    (g : Group) (gs : List Group) → AreGroups (g ∷ gs) → Turn (g ∷ gs) (pick_groups (g ∷ gs))
pick_groups_lem g gs h = elim (Bool-cases (total_credit (g ∷ gs) == 0)) [
  | inl e ↦
      (let (i, x, found, top) = scan_lem (refill (g ∷ gs)) (refilled g gs h.0) in
        let (p, ts, queue, take) =
          take_turn_lem (refill (g ∷ gs)) i x (AreGroups-refill (g ∷ gs) h) top in
        record {
          place = i;
          group = x;
          task = p;
          others = ts;
          heaviest = rw e top;
          queue = queue;
          returns = rw e (pick-refilled g gs (ground arith) ∙ rw found take);
        })
  | inr e ↦
      (let (i, x, found, top) = scan_lem (g ∷ gs) (ground arith) in
        let (p, ts, queue, take) = take_turn_lem (g ∷ gs) i x h top in
        record {
          place = i;
          group = x;
          task = p;
          others = ts;
          heaviest = rw e top;
          queue = queue;
          returns = rw e (pick-credited g gs i x found top.positive ∙ take);
        })
]
