-- ===== src/FlatGwrr/Nested.antt =====
-- The version of the scheduler in hw4/1105/sched_gwrr.c, seen as the one in hw4/sched_gwrr.c, where each
-- group has its own tasks.
use cs.Base.{
  ℕ, zero, suc, ◌+◌, ◌≤◌, ◌≡◌, ◌≢◌, refl, sym, ap, ap₂, subst, ◌∙◌, true, false, Option, none, some,
  List, [], ◌∷◌, ◌++◌, ◌==◌, if◌then◌else◌, arith, Bool-cases, inl, inr, get_elem?, set, map, ltb,
}
use cs.Gwrr
use cs.FlatGwrr.{Task, Group, scan, refill, choose}
use cs.FlatGwrr.Served.{groups_of, tasks_of}
use cs.FlatGwrr.Picks.{get-groups_of}
use cs.FlatGwrr.Reach.{put_back, choose-put_back}

abbrev pub as_task : Task → Gwrr.Task
as_task t = record { pid = t.pid; gid = t.gid }

-- The tasks of a gid, in the order of the list.
abbrev pub own : ℕ → List Task → List Gwrr.Task
own d [] = []
own d (t ∷ ts) = let further = own d ts in if t.gid == d then as_task t ∷ further else further

abbrev pub nest_group : List Task → Group → Gwrr.Group
nest_group ts g = record {
  weight = g.weight;
  curr_weight = g.curr_weight;
  gid = g.gid;
  tasks_holder = own g.gid ts;
}

abbrev pub nest : List Group → List Task → List Gwrr.Group
nest gs ts = map (nest_group ts) gs

pub scan-nest :
    (ts : List Task) (i max : ℕ) (at : Option ℕ) (gs : List Group)
    → Gwrr.scan i max at (nest gs ts) ≡ scan i max at gs
unfolding scan Gwrr.scan
scan-nest ts i max at [] = refl
scan-nest ts i max at (g ∷ gs) =
    scan-nest ts (i + 1) (if ltb max g.curr_weight then g.curr_weight else max)
      (if ltb max g.curr_weight then some i else at) gs

pub refill-nest :
    (gs : List Group) (ts : List Task) → Gwrr.refill (nest gs ts) ≡ nest (refill gs) ts
unfolding Gwrr.refill
refill-nest [] ts = refl
refill-nest (g ∷ gs) ts =
    ap (λ l. nest_group ts (record g { curr_weight = g.weight }) ∷ l) (refill-nest gs ts)

pub get-nest :
    (gs : List Group) (ts : List Task) (i : ℕ) (g : Group)
    → get_elem? gs i ≡ some g
    → get_elem? (nest gs ts) i ≡ some (nest_group ts g)
get-nest [] ts i g e = absurd cc
get-nest (h ∷ gs) ts zero g e = ap (λ o. some (nest_group ts o)) cc
get-nest (h ∷ gs) ts (suc i) g e = get-nest gs ts i g e

pub own-append : (d : ℕ) (ts us : List Task) → own d (ts ++ us) ≡ own d ts ++ own d us
own-append d [] us = refl
own-append d (t ∷ ts) us = elim (Bool-cases (t.gid == d)) [
  | inl e ↦ rw e (ap (λ l. as_task t ∷ l) (own-append d ts us))
  | inr e ↦ rw e (own-append d ts us)
]

own-none : (d : ℕ) (ts : List Task) → tasks_of d ts ≡ 0 → own d ts ≡ []
own-none d [] h = refl
own-none d (t ∷ ts) h =
    let other : (t.gid == d) ≡ false = ground (arith, h) in
    rw other (own-none d ts (ground (arith, h)))

-- A task of the gid that is chosen is the first one, and the others stay in order.
abbrev IsChosen : ℕ → List Task → Option (Task × List Task) → Type 0
IsChosen gid ts none = Unit
IsChosen gid ts (some (t, rest)) =
    t.gid ≡ gid
    → (own gid ts ≡ as_task t ∷ own gid rest) × ((d : ℕ) → d ≢ gid → own d rest ≡ own d ts)

choose-IsChosen : (gid : ℕ) (ts : List Task) → IsChosen gid ts (choose gid ts)
unfolding choose
choose-IsChosen gid [] = tt
choose-IsChosen gid (u ∷ ts) = go (choose gid ts) refl (choose-IsChosen gid ts)
  where
    passed : (d : ℕ) → u.gid ≢ d → own d (u ∷ ts) ≡ own d ts
    passed d ne = let other : (u.gid == d) ≡ false = ground (arith, ne) in rw other refl

    taken : u.gid ≡ gid → own gid (u ∷ ts) ≡ as_task u ∷ own gid ts
    taken same = let here : (u.gid == gid) ≡ true = ground (arith, same) in rw here refl

    go :
        (o : Option (Task × List Task))
        → choose gid ts ≡ o
        → IsChosen gid ts (choose gid ts)
        → IsChosen gid (u ∷ ts) (choose gid (u ∷ ts))
    go none e h =
        let nothing : (d : ℕ) → own d ts ≡ [] = λ d. own-none d ts (
          sym
            (subst (λ o. tasks_of d (put_back o) ≡ tasks_of d ts) e (choose-put_back d gid ts))) in
        rw (choose, e)
          (λ same. (
            taken same ∙ ap (λ l. as_task u ∷ l) (nothing gid),
            λ d ne. sym (passed d (λ is. ne (sym is ∙ same)) ∙ nothing d),
          ))
    go (some (v, rest)) e h = elim (Bool-cases (u.gid == gid)) [
      | inl b ↦
          rw (choose, e, b)
            (λ same. (taken same, λ d ne. sym (passed d (λ is. ne (sym is ∙ same)))))
      | inr b ↦
          rw (choose, e, b)
            (λ same.
              (let (first, others) = (subst (IsChosen gid ts) e h) same in
                let skip : u.gid ≢ gid = λ is. ground (arith, b, is) in
                (
                  passed gid skip ∙ first ∙ ap (λ l. as_task v ∷ l) (sym (rw b refl)),
                  λ d ne. ap (λ l. if u.gid == d then as_task u ∷ l else l) (others d ne),
                )))
    ]

pub choose-own :
    (gid : ℕ) (ts rest : List Task) (t : Task)
    → choose gid ts ≡ some (t, rest)
    → t.gid ≡ gid
    → (own gid ts ≡ as_task t ∷ own gid rest) × ((d : ℕ) → d ≢ gid → own d rest ≡ own d ts)
choose-own gid ts rest t e same = (subst (IsChosen gid ts) e (choose-IsChosen gid ts)) same

nest-other :
    (d : ℕ) (gs : List Group) (ts us : List Task)
    → groups_of d gs ≡ 0
    → ((c : ℕ) → c ≢ d → own c us ≡ own c ts)
    → nest gs us ≡ nest gs ts
nest-other d [] ts us no_group same = refl
nest-other d (g ∷ gs) ts us no_group same =
    let other : g.gid ≢ d = λ e. ground (arith, no_group, e) in
    ap₂ (λ own_tasks l. record (nest_group ts g) { tasks_holder = own_tasks } ∷ l)
      (same g.gid other) (nest-other d gs ts us (ground (arith, no_group)) same)

pub nest-set :
    (gs : List Group) (i : ℕ) (g g' : Group) (ts us : List Task)
    → get_elem? gs i ≡ some g
    → groups_of g.gid gs ≤ 1
    → ((c : ℕ) → c ≢ g.gid → own c us ≡ own c ts)
    → nest (set gs i g') us ≡ set (nest gs ts) i (nest_group us g')
nest-set [] i g g' ts us there once same = refl
nest-set (h ∷ gs) zero g g' ts us there once same =
    let no_group : groups_of g.gid gs ≡ 0 = ground (arith, there, once) in
    ap (λ l. nest_group us g' ∷ l) (nest-other g.gid gs ts us no_group same)
nest-set (h ∷ gs) (suc i) g g' ts us there once same =
    let listed = get-groups_of gs i g there in
    let other : h.gid ≢ g.gid = λ e. ground (arith, once, listed, e) in
    ap₂ (λ own_tasks l. record (nest_group ts h) { tasks_holder = own_tasks } ∷ l)
      (same h.gid other) (nest-set gs i g g' ts us there (ground (arith, once)) same)
