-- ===== src/FlatGwrr/Picks.antt =====
-- pick_next_task_gwrr of hw4/1105/sched_gwrr.c.
use cs.Base.{
  ℕ, zero, suc, ◌+◌, ◌-◌, ◌<◌, ◌≡◌, ◌≢◌, refl, sym, ◌∙◌, ap, subst, true, false, Option, none, some,
  List, [], ◌∷◌, ◌++◌, ◌==◌, if◌then◌else◌, arith, Bool-cases, All, inl, inr, ltb, get_elem?, map,
  set,
}
use cs.Base.Outcome.{ok}
use cs.Gwrr
use cs.Gwrr.Scan.{total_credit, IsHeaviest, scan_lem, scan-none}
use cs.FlatGwrr.{Task, Group, scan, refill, retry, choose, take_turn, pick_next_task}
use cs.FlatGwrr.Served.{groups_of, tasks_of, IsServed}

-- The group as one of the version with a task list in each group.
abbrev pub with_tasks : Group → Gwrr.Group
with_tasks g = record {
  weight = g.weight;
  curr_weight = g.curr_weight;
  gid = g.gid;
  tasks_holder = [];
}

-- Both versions search in one way.
scan-with_tasks :
    (i max : ℕ) (at : Option ℕ) (gs : List Group)
    → scan i max at gs ≡ Gwrr.scan i max at (map with_tasks gs)
unfolding scan Gwrr.scan
scan-with_tasks i max at [] = refl
scan-with_tasks i max at (g ∷ gs) =
    scan-with_tasks (i + 1) (if ltb max g.curr_weight then g.curr_weight else max)
      (if ltb max g.curr_weight then some i else at) gs

pub get-with_tasks :
    (gs : List Group) (i : ℕ) {h : Gwrr.Group}
    → get_elem? (map with_tasks gs) i ≡ some h
    → (g : Group) × (get_elem? gs i ≡ some g) × (with_tasks g ≡ h)
get-with_tasks [] i e = cc
get-with_tasks (g ∷ gs) zero e = (g, refl, ground arith)
get-with_tasks (g ∷ gs) (suc i) e = get-with_tasks gs i e

choose-first :
    (gid : ℕ) (t : Task) (ts : List Task)
    → (t.gid == gid) ≡ true
    → (rest : List Task) × (choose gid (t ∷ ts) ≡ some (t, rest))
unfolding choose
choose-first gid t ts e = go (choose gid ts) refl
  where
    go :
        (o : Option (Task × List Task))
        → choose gid ts ≡ o
        → (rest : List Task) × (choose gid (t ∷ ts) ≡ some (t, rest))
    go none none_left = ([], rw (choose, none_left) refl)
    go (some (u, rest)) found = (ts, rw (choose, found, e) refl)

-- With a task of the gid the last loop stops at one.
pub choose_lem :
    (gid : ℕ) (ts : List Task)
    → tasks_of gid ts ≢ 0
    → (t : Task) × (rest : List Task) × (choose gid ts ≡ some (t, rest)) × (t.gid ≡ gid)
unfolding choose
choose_lem gid [] h = absurd (h refl)
choose_lem gid (t ∷ ts) h = elim (Bool-cases (t.gid == gid)) [
  | inl e ↦ (let (rest, found) = choose-first gid t ts e in (t, rest, found, ground (arith, e)))
  | inr e ↦
      (let (u, rest, found, same) = choose_lem gid ts (λ z. h (ground (arith, e, z))) in
        (u, t ∷ rest, rw (found, e) refl, same))
]

-- Every group has a weight above 0.
abbrev pub IsWeighted : List Group → Type 0
IsWeighted gs = All (λ g. 0 < g.weight) gs

pub refill-credit :
    (g : Group) (gs : List Group)
    → IsWeighted (g ∷ gs)
    → total_credit (map with_tasks (refill (g ∷ gs))) ≢ 0
refill-credit g gs w e = omega (arith, w.0, e)

-- The groups that a pick sees: as they are, or refilled if no current weight was left.
pub data Seen (gs : List Group) : List Group → Type 0 where
  as_is : total_credit (map with_tasks gs) ≢ 0 → Seen gs gs
  refilled : total_credit (map with_tasks gs) ≡ 0 → Seen gs (refill gs)

pub scan-IsHeaviest :
    (gs : List Group)
    → total_credit (map with_tasks gs) ≢ 0
    → (i : ℕ) × (g : Group) × (scan 0 0 none gs ≡ (g.curr_weight, some i))
      × IsHeaviest (map with_tasks gs) i (with_tasks g)
      × (get_elem? gs i ≡ some g)
scan-IsHeaviest gs some_credit =
    let (i, h, e, heavy) = scan_lem (map with_tasks gs) some_credit in
    let (g, there, same) = get-with_tasks gs i heavy.there in
    (
      i,
      g,
      scan-with_tasks 0 0 none gs ∙ e ∙ ap (λ k. (k.curr_weight, some i)) (sym same),
      subst (λ k. IsHeaviest (map with_tasks gs) i k) (sym same) heavy,
      there,
    )

pub retry-stops :
    (n i c : ℕ) (gs : List Group)
    → scan 0 0 none gs ≡ (c, some i)
    → 0 < c
    → retry (suc n) gs ≡ some (some i, gs)
unfolding retry
retry-stops n i c gs e lt = let above : (c == 0) ≡ false = ground arith in rw (e, above) refl

pub retry-goes_on :
    (n : ℕ) (gs : List Group)
    → total_credit (map with_tasks gs) ≡ 0
    → retry (suc n) gs ≡ retry n (refill gs)
unfolding retry
retry-goes_on n gs no_credit =
    rw (scan-with_tasks 0 0 none gs, scan-none (map with_tasks gs) no_credit) refl

pub get-groups_of :
    (gs : List Group) (i : ℕ) (g : Group) → get_elem? gs i ≡ some g → groups_of g.gid gs ≢ 0
get-groups_of [] i g e = absurd cc
get-groups_of (h ∷ gs) zero g e = λ z. ground (arith, e, z)
get-groups_of (h ∷ gs) (suc i) g e = λ z. get-groups_of gs i g e (omega (arith, z))

pub groups_of-refill : (d : ℕ) (gs : List Group) → groups_of d (refill gs) ≡ groups_of d gs
groups_of-refill d [] = refl
groups_of-refill d (g ∷ gs) = omega (arith, groups_of-refill d gs)

pub Seen-groups_of :
    (gs seen : List Group) (d : ℕ) → Seen gs seen → groups_of d seen ≡ groups_of d gs
Seen-groups_of gs seen d (as_is some_credit) = refl
Seen-groups_of gs seen d (refilled no_credit) = groups_of-refill d gs

-- What the loop from `retry` on ends with: a group with the largest current weight.
record Retried (n : ℕ) (gs : List Group) : Type 0 where
  seen : List Group
  place : ℕ
  group : Group
  ends : retry n gs ≡ some (some place, seen)
  is_seen : Seen gs seen
  heaviest : IsHeaviest (map with_tasks seen) place (with_tasks group)
  there : get_elem? seen place ≡ some group

-- Two rounds are enough.
retry_enough :
    (n : ℕ) (gs : List Group)
    → total_credit (map with_tasks (refill gs)) ≢ 0
    → Retried (suc (suc n)) gs
retry_enough n gs weighted = elim (Bool-cases (total_credit (map with_tasks gs) == 0)) [
  | inl e ↦
      (let (i, g, found, heavy, there) = scan-IsHeaviest (refill gs) weighted in
        record {
          seen = refill gs;
          place = i;
          group = g;
          ends =
              retry-goes_on (suc n) gs (ground (arith, e))
              ∙ retry-stops n i g.curr_weight (refill gs) found heavy.positive;
          is_seen = refilled (ground (arith, e));
          heaviest = heavy;
          there = there;
        })
  | inr e ↦
      (let some_credit : total_credit (map with_tasks gs) ≢ 0 = λ z. ground (arith, e, z) in
        let (i, g, found, heavy, there) = scan-IsHeaviest gs some_credit in
        record {
          seen = gs;
          place = i;
          group = g;
          ends = retry-stops (suc n) i g.curr_weight gs found heavy.positive;
          is_seen = as_is some_credit;
          heaviest = heavy;
          there = there;
        })
]

-- In a state where each gid has one group if it has tasks and none if not, and weights are above 0,
-- pick_next_task_gwrr ends after two rounds at most: it returns a task of a group that has the largest
-- current weight above 0, after a refill if no group had any, takes 1 off that group's weight, and
-- moves the task to the end.
pub pick_next_task_lem :
    (n : ℕ) (h : Group) (hs : List Group) (p : Task) (ps : List Task)
    → IsWeighted (h ∷ hs)
    → IsServed (record { groups_holder = h ∷ hs; tasks_holder = p ∷ ps })
    → (gs : List Group) × (i : ℕ) × (g : Group) × (t : Task) × (rest : List Task) × Seen (h ∷ hs) gs
      × IsHeaviest (map with_tasks gs) i (with_tasks g)
      × (t.gid ≡ g.gid)
      × (choose g.gid (p ∷ ps) ≡ some (t, rest))
      × (pick_next_task (suc (suc n)) (record { groups_holder = h ∷ hs; tasks_holder = p ∷ ps })
          ≡ some (
              ok (
                some t,
                record {
                  groups_holder = set gs i (record g { curr_weight = g.curr_weight - 1 });
                  tasks_holder = rest ++ t ∷ [];
                },
              )))
unfolding pick_next_task take_turn
pick_next_task_lem n h hs p ps weighted served =
    let r = retry_enough n (h ∷ hs) (refill-credit h hs weighted) in
    let listed = Seen-groups_of (h ∷ hs) r.seen r.group.gid r.is_seen in
    let present = get-groups_of r.seen r.place r.group r.there in
    let (t, rest, chosen, same) = choose_lem r.group.gid (p ∷ ps) (λ none_left.
      present (listed ∙ served r.group.gid ∙ ap (λ c. if c == 0 then 0 else 1) none_left)) in
    (
      r.seen,
      r.place,
      r.group,
      t,
      rest,
      r.is_seen,
      r.heaviest,
      same,
      chosen,
      rw (r.ends, r.there, chosen) refl,
    )
