-- ===== src/Rates/Drift.antt =====
-- The counters of hw1/part_one.c after any number of rounds of getinfo.
use cs.Base.{ℕ, ◌+◌, ◌-◌, ◌≤◌, ◌≡◌, refl, ap, ◌∙◌, some, List, [], ◌∷◌, ◌++◌, arith}
use cs.Base.Int.{ℤ, pos}
use cs.Base.Outcome.{ok}
use cs.Rates.{Rate, Scans, Files, myrate, getinfo}
use cs.Rates.Counters.{
  Totals, Reads, AtMost, unset, counted, since, since-AtMost, IsBelow, after_round,
  getinfo_round_lem,
}

-- No total of the second is smaller.
pub record IsRise (a b : Totals) : Type 0 where
  pub sector : a.sector ≤ b.sector
  pub context : a.context ≤ b.context
  pub process : a.process ≤ b.process

abbrev pub Rises : Totals → List Totals → Type 0
Rises low [] = Unit
Rises low (t ∷ ts) = IsRise low t × Rises t ts

-- Each round reads its totals.
abbrev pub AllRead : Scans → List Files → List Totals → Type 0
AllRead sscanf [] [] = Unit
AllRead sscanf (files ∷ rounds) (t ∷ ts) = Reads sscanf files t × AllRead sscanf rounds ts
AllRead sscanf _ _ = ⊥

AllRead-append :
    (sscanf : Scans) (fs gs : List Files) (ts us : List Totals)
    → AllRead sscanf fs ts
    → AllRead sscanf gs us
    → AllRead sscanf (fs ++ gs) (ts ++ us)
AllRead-append sscanf [] gs [] us ra rb = rb
AllRead-append sscanf (f ∷ fs) gs (t ∷ ts) us ra rb =
    (ra.0, AllRead-append sscanf fs gs ts us ra.1 rb)
AllRead-append sscanf [] gs (t ∷ ts) us ra rb = absurd ra
AllRead-append sscanf (f ∷ fs) gs [] us ra rb = absurd ra

Rises-prefix : (low : Totals) (ts us : List Totals) → Rises low (ts ++ us) → Rises low ts
Rises-prefix low [] us h = tt
Rises-prefix low (t ∷ ts) us h = (h.0, Rises-prefix t ts us h.1)

-- The counters after rounds with these totals.
abbrev rates : Rate → List Totals → Rate
rates r [] = r
rates r (t ∷ ts) = rates (after_round r t) ts

rates-append : (r : Rate) (ts us : List Totals) → rates r (ts ++ us) ≡ rates (rates r ts) us
rates-append r [] us = refl
rates-append r (t ∷ ts) us = rates-append (after_round r t) ts us

AtMost-later : (a b : ℕ) (v : ℤ) → AtMost a v → a ≤ b → AtMost b v
AtMost-later a b v unset le = unset
AtMost-later a b v (counted u h) le = counted u (omega (arith, h, le))

IsBelow-later : (r : Rate) (a b : Totals) → IsBelow r a → IsRise a b → IsBelow r b
IsBelow-later r a b h rise = record {
  sector = AtMost-later a.sector b.sector r.n_sector_rw h.sector rise.sector;
  context = AtMost-later a.context b.context r.n_contex_s h.context rise.context;
  process = AtMost-later a.process b.process r.n_process_c h.process rise.process;
}

after_round-IsBelow : (r : Rate) (t : Totals) → IsBelow (after_round r t) t
after_round-IsBelow r t = record {
  sector = counted _ (omega arith);
  context = counted _ (omega arith);
  process = counted _ (omega arith);
}

getinfo-rates :
    (sscanf : Scans) (rounds : List Files) (ts : List Totals) (low : Totals) (r : Rate)
    → AllRead sscanf rounds ts
    → Rises low ts
    → IsBelow r low
    → getinfo sscanf rounds r ≡ ok (some (rates r ts))
unfolding getinfo
getinfo-rates sscanf [] [] low r reads rises below = refl
getinfo-rates sscanf (f ∷ rounds) (t ∷ ts) low r reads rises below =
    rw (getinfo_round_lem sscanf f t r reads.0 (IsBelow-later r low t below rises.0))
      (getinfo-rates sscanf rounds ts t (after_round r t) reads.1 rises.1 (after_round-IsBelow r t))
getinfo-rates sscanf [] (t ∷ ts) low r reads rises below = absurd reads
getinfo-rates sscanf (f ∷ rounds) [] low r reads rises below = absurd reads

-- What the last totals before two more rounds bound.
rates-IsBelow :
    (r : Rate) (low : Totals) (ts : List Totals) (t : Totals) (us : List Totals)
    → IsBelow r low
    → Rises low (ts ++ t ∷ us)
    → IsBelow (rates r ts) t × Rises t us
rates-IsBelow r low [] t us below rises = (IsBelow-later r low t below rises.0, rises.1)
rates-IsBelow r low (x ∷ ts) t us below rises =
    rates-IsBelow (after_round r x) x ts t us (after_round-IsBelow r x) rises.1

-- The counters of two rounds before, plus the differences of the last two totals.
abbrev pub drifted : Rate → Totals → Totals → Rate
drifted r t u = record {
  n_sector_rw = pos ((u.sector - t.sector) + since r.n_sector_rw);
  n_contex_s = pos ((u.context - t.context) + since r.n_contex_s);
  n_process_c = pos ((u.process - t.process) + since r.n_process_c);
}

two_rounds : (v : ℤ) (t u : ℕ) → AtMost t v → t ≤ u → u - (t - since v) ≡ (u - t) + since v
two_rounds v t u h le = omega (arith, since-AtMost t v h, le)

after_two :
    (r : Rate) (t u : Totals)
    → IsBelow r t
    → IsRise t u
    → after_round (after_round r t) u ≡ drifted r t u
after_two r t u below rise =
    let s = two_rounds r.n_sector_rw t.sector u.sector below.sector rise.sector in
    let c = two_rounds r.n_contex_s t.context u.context below.context rise.context in
    let p = two_rounds r.n_process_c t.process u.process below.process rise.process in
    rw (s, c, p) refl

abbrev pub no_totals : Totals
no_totals = record { sector = 0; context = 0; process = 0 }

-- From main's start, in rounds whose files have each total once, where the totals never fall and fit
-- an `int`: two rounds more make each counter the difference of the last two totals, plus what the
-- counter was before the two if it was set.
pub getinfo_drifts :
    (sscanf : Scans) (rounds : List Files) (ts : List Totals) (f g : Files) (t u : Totals)
    → AllRead sscanf rounds ts
    → Reads sscanf f t
    → Reads sscanf g u
    → Rises no_totals (ts ++ t ∷ u ∷ [])
    → (r : Rate) × (getinfo sscanf rounds myrate ≡ ok (some r))
      × (getinfo sscanf (rounds ++ f ∷ g ∷ []) myrate ≡ ok (some (drifted r t u)))
getinfo_drifts sscanf rounds ts f g t u reads rf rg rises =
    let start : IsBelow myrate no_totals = record {
      sector = unset;
      context = unset;
      process = unset;
    } in
    let (below, rise) = rates-IsBelow myrate no_totals ts t (u ∷ []) start rises in
    let all = AllRead-append sscanf rounds (f ∷ g ∷ []) ts (t ∷ u ∷ []) reads (rf, (rg, tt)) in
    (
      rates myrate ts,
      getinfo-rates sscanf rounds ts no_totals myrate reads
          (Rises-prefix no_totals ts (t ∷ u ∷ []) rises) start,
      getinfo-rates sscanf (rounds ++ f ∷ g ∷ []) (ts ++ t ∷ u ∷ []) no_totals myrate all rises
            start
          ∙ ap (λ r. ok (some r))
              (rates-append myrate ts (t ∷ u ∷ []) ∙ after_two (rates myrate ts) t u below rise.0),
    )
