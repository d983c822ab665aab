-- ===== src/Gwrr/Turns/Fairness.antt =====
-- How a run of picks of hw4/sched_gwrr.c divides the turns: each gid gets as many as its credit.
use cs.Base.{
  ℕ, zero, suc, ◌+◌, ◌-◌, ◌≤◌, ◌≡◌, ◌≢◌, refl, subst, Option, none, some, List, [], ◌∷◌, ◌++◌, ◌==◌,
  if◌then◌else◌, get_elem?, set, arith, All, All-append,
}
use cs.Base.Outcome.{Outcome, ok, ◌>>=◌}
use cs.Gwrr.{Task, Group, pick_groups}
use cs.Gwrr.Scan.{total_credit, credit, share, IsHeaviest}
use cs.Gwrr.Turns.{IsGroup, AreGroups, funded, turned, Turn, All-get, pick_groups_lem}

-- The tasks that `n` calls of pick_next_task_gwrr return, with no enqueue or dequeue in between.
unfoldable pub picks : ℕ → List Group → Outcome (List (Option Task) × List Group)
picks zero gs = ok ([], gs)
picks (suc n) gs = do (p, gs') ← pick_groups gs; (ps, last) ← picks n gs'; ok (p ∷ ps, last)

abbrev pub turns_of : ℕ → List (Option Task) → ℕ
turns_of d [] = 0
turns_of d (none ∷ ps) = turns_of d ps
turns_of d (some p ∷ ps) = (if p.gid == d then 1 else 0) + turns_of d ps

pub All-set {ℓ} :
    (P : Group → Type ℓ) (gs : List Group) (i : ℕ) (g : Group) → All P gs → P g → All P (set gs i g)
All-set P [] i g h p = tt
All-set P (x ∷ gs) zero g h p = (p, h.1)
All-set P (x ∷ gs) (suc i) g h p = (h.0, All-set P gs i g h.1 p)

credit-set :
    (d : ℕ) (gs : List Group) (i : ℕ) (g g' : Group)
    → get_elem? gs i ≡ some g
    → g'.gid ≡ g.gid
    → g'.curr_weight + 1 ≡ g.curr_weight
    → credit d (set gs i g') + (if g.gid == d then 1 else 0) ≡ credit d gs
credit-set d [] i g g' e same less = cc
credit-set d (x ∷ gs) zero g g' e same less = let here : x ≡ g = cc in ground arith
credit-set d (x ∷ gs) (suc i) g g' e same less = omega (arith, credit-set d gs i g g' e same less)

total-set :
    (gs : List Group) (i : ℕ) (g g' : Group)
    → get_elem? gs i ≡ some g
    → g'.curr_weight + 1 ≡ g.curr_weight
    → total_credit (set gs i g') + 1 ≡ total_credit gs
total-set [] i g g' e less = cc
total-set (x ∷ gs) zero g g' e less = let here : x ≡ g = cc in ground arith
total-set (x ∷ gs) (suc i) g g' e less = omega (arith, total-set gs i g g' e less)

set-ne-nil : (gs : List Group) (i : ℕ) (g : Group) → gs ≢ [] → set gs i g ≢ []
set-ne-nil [] i g h = h
set-ne-nil (x ∷ gs) zero g h = cc
set-ne-nil (x ∷ gs) (suc i) g h = cc

pub IsGroup-turned :
    (g : Group) (p : Task) (ts : List Task)
    → IsGroup g
    → g.tasks_holder ≡ p ∷ ts
    → (IsGroup (turned g p ts)) × (p.gid ≡ g.gid)
IsGroup-turned g p ts h e =
    let own : All (λ t. t.gid ≡ g.gid) (p ∷ ts) = subst (All (λ t. t.gid ≡ g.gid)) e h.own in
    (
      record {
        weighted = h.weighted;
        within = omega (arith, h.within);
        occupied = snoc-ne-nil ts p;
        own = All-append (λ t. t.gid ≡ g.gid) ts (p ∷ []) own.1 (own.0, tt);
      },
      own.0,
    )
  where
    snoc-ne-nil : (l : List Task) (t : Task) → l ++ (t ∷ []) ≢ []
    snoc-ne-nil [] t = λ c. cc
    snoc-ne-nil (x ∷ l) t = λ c. cc

-- One turn on groups with credit: the picked task's gid pays one, and the groups stay well-formed.
record Paid (gs : List Group) (out : Outcome (Option Task × List Group)) : Type 0 where
  task : Task
  after : List Group
  returns : out ≡ ok (some task, after)
  well : AreGroups after
  nonempty : after ≢ []
  pays : (d : ℕ) → credit d after + (if task.gid == d then 1 else 0) ≡ credit d gs
  total : total_credit after + 1 ≡ total_credit gs

Turn-Paid :
    (gs : List Group)
    → AreGroups gs
    → gs ≢ []
    → total_credit gs ≢ 0
    → (out : Outcome (Option Task × List Group)) → Turn gs out
    → Paid gs out
Turn-Paid gs h ne rich out t = record {
  task = t.task;
  after = set gs t.place (turned t.group t.task t.others);
  returns =
      subst (λ x. out ≡ ok (some t.task, set x t.place (turned t.group t.task t.others))) same
        t.returns;
  well = All-set IsGroup gs t.place _ h kept.0;
  nonempty = set-ne-nil gs t.place _ ne;
  pays = λ d. ground (
    arith,
    kept.1,
    credit-set d gs t.place t.group (turned t.group t.task t.others) there refl less,
  );
  total = total-set gs t.place t.group (turned t.group t.task t.others) there less;
}
  where
    same : funded gs ≡ gs
    same = ground arith

    top : IsHeaviest gs t.place t.group
    top = subst (λ x. IsHeaviest x t.place t.group) same t.heaviest

    there : get_elem? gs t.place ≡ some t.group
    there = top.there

    less : t.group.curr_weight - 1 + 1 ≡ t.group.curr_weight
    less = omega (arith, top.positive)

    kept : IsGroup (turned t.group t.task t.others) × (t.task.gid ≡ t.group.gid)
    kept =
        IsGroup-turned t.group t.task t.others (All-get IsGroup gs t.place t.group h there) t.queue

pick-Paid :
    (gs : List Group) → AreGroups gs → gs ≢ [] → total_credit gs ≢ 0 → Paid gs (pick_groups gs)
pick-Paid [] h ne rich = absurd (ne refl)
pick-Paid (g ∷ gs) h ne rich =
    Turn-Paid (g ∷ gs) h ne rich (pick_groups (g ∷ gs)) (pick_groups_lem g gs h)

-- What `n` picks leave, with as much credit as they use.
pub record Divided (n : ℕ) (gs : List Group) (out : Outcome (List (Option Task) × List Group))
    : Type 0 where
  pub tasks : List (Option Task)
  pub after : List Group
  pub returns : out ≡ ok (tasks, after)
  pub well : AreGroups after
  pub given : (d : ℕ) → turns_of d tasks + credit d after ≡ credit d gs
  pub left : total_credit after + n ≡ total_credit gs

-- As many picks as there is credit, or fewer, are all defined, and the turns that each gid has been
-- given and the credit that it has left make up the credit that it had.
pub picks_divide :
    (n : ℕ) (gs : List Group)
    → AreGroups gs
    → gs ≢ []
    → n ≤ total_credit gs
    → Divided n gs (picks n gs)
unfolding picks
picks_divide zero gs h ne le = record {
  tasks = [];
  after = gs;
  returns = refl;
  well = h;
  given = λ d. omega arith;
  left = omega arith;
}
picks_divide (suc n) gs h ne le =
    let first : Paid gs (pick_groups gs) = pick-Paid gs h ne (omega arith) in
    let rest : Divided n first.after (picks n first.after) =
      picks_divide n first.after first.well first.nonempty (omega (arith, first.total)) in
    record {
      tasks = some first.task ∷ rest.tasks;
      after = rest.after;
      returns = ground (arith, first.returns, rest.returns);
      well = rest.well;
      given = λ d. omega (arith, first.pays d, rest.given d);
      left = omega (arith, first.total, rest.left);
    }

credit-le_total : (d : ℕ) (gs : List Group) → credit d gs ≤ total_credit gs
credit-le_total d [] = omega arith
credit-le_total d (g ∷ gs) = ground (arith, credit-le_total d gs)

-- Every group at full credit.
abbrev pub IsFull : List Group → Type 0
IsFull = All (λ g. g.curr_weight ≡ g.weight)

credit-IsFull : (d : ℕ) (gs : List Group) → IsFull gs → credit d gs ≡ share d gs
credit-IsFull d [] h = refl
credit-IsFull d (g ∷ gs) h = ground (arith, credit-IsFull d gs h.1)

-- In groups, not none, that each have a task, only tasks of their own gid, and a weight above 0, with
-- all credit left, as many picks as there is credit are all defined, and give each gid exactly as many
-- turns as the weights of its groups come to; no credit is left then.
pub picks-share :
    (gs : List Group)
    → AreGroups gs
    → gs ≢ []
    → IsFull gs
    → (tasks : List (Option Task)) × (after : List Group) × (picks (total_credit gs) gs
        ≡ ok (tasks, after))
      × ((d : ℕ) → turns_of d tasks ≡ share d gs)
      × (total_credit after ≡ 0)
picks-share gs h ne full =
    let out : Divided (total_credit gs) gs (picks (total_credit gs) gs) =
      picks_divide (total_credit gs) gs h ne (omega arith) in
    (
      out.tasks,
      out.after,
      out.returns,
      λ d.
          omega
            (arith, out.given d, out.left, credit-le_total d out.after, credit-IsFull d gs full),
      omega (arith, out.left),
    )
