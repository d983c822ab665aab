-- ===== src/Shell/Jobs/Numbering.antt =====
-- The job ids that addjob and deletejob of hw1/part_two.c give out.
use cs.Base.{
  ℕ, ◌+◌, ◌<◌, ◌≤◌, ◌≡◌, ◌≢◌, refl, sym, ◌∙◌, ap, true, false, Option, none, some, List, arith,
  get_elem?, set, inl, inr, ◌⊎◌,
}
use cs.Base.Int.{ℤ}
use cs.Base.Outcome.{ok}
use cs.Shell.Jobs.{
  max_jobs, Job, JobState, Shell, clearjob, maxjid, first_job, is_free, has_pid, advance, new_job,
  fill_job, addjob, drop_job, deletejob,
}
use cs.Shell.Jobs.Lookup.{get-set, get-set_ne, get-set-cases, get-cases, first_job-get, get-maxjid}

-- No two jobs have one jid, and none has a jid from the next one on.
pub record IsNumbered (s : Shell) : Type 0 where
  pub below : (i : ℕ) (job : Job) → get_elem? s.jobs i ≡ some job → job.jid < s.nextjid
  pub apart :
      (i j : ℕ) (a b : Job)
      → get_elem? s.jobs i ≡ some a
      → get_elem? s.jobs j ≡ some b
      → a.jid ≡ b.jid
      → a.jid ≢ 0
      → i ≡ j

-- How a call that succeeds writes to the job list.
pub record Written (s t : Shell) (fill : Job → Job) : Type 0 where
  pub at : ℕ
  pub old : Job
  pub there : get_elem? s.jobs at ≡ some old
  pub jobs : t.jobs ≡ set s.jobs at (fill old)

fill_job-Written :
    (pid : ℤ) (state : JobState) (cmdline : List ℕ) (s t : Shell) (place : Option ℕ)
    → ((i : ℕ)
        → place ≡ some i
        → (job : Job) × (get_elem? s.jobs i ≡ some job) × (is_free job ≡ true))
    → fill_job pid state cmdline s place ≡ ok (true, t)
    → (w : Written s t (new_job pid state cmdline s)) × (t.nextjid ≡ advance s.nextjid)
      × (is_free w.old ≡ true)
unfolding fill_job
fill_job-Written pid state cmdline s t none found e = absurd (ground arith)
fill_job-Written pid state cmdline s t (some i) found e =
    let (old, there, free) = found i refl in
    (record { at = i; old = old; there = there; jobs = ground arith }, ground arith, free)

addjob-Written :
    (pid : ℤ) (state : JobState) (cmdline : List ℕ) (s t : Shell)
    → addjob pid state cmdline s ≡ ok (true, t)
    → (w : Written s t (new_job pid state cmdline s)) × (t.nextjid ≡ advance s.nextjid)
      × (is_free w.old ≡ true)
unfolding addjob
addjob-Written pid state cmdline s t e =
    fill_job-Written pid state cmdline s t (first_job is_free s.jobs) (first_job-get is_free s.jobs)
      (ground arith)

drop_job-Written :
    (s t : Shell) (place : Option ℕ)
    → drop_job s place ≡ (true, t)
    → Written s t clearjob × (t.nextjid ≡ maxjid t.jobs + 1)
unfolding drop_job
drop_job-Written s t none e = absurd (ground arith)
drop_job-Written s t (some i) e = elim (get-cases s.jobs i) [
  | inl missing ↦ absurd (ground arith)
  | inr (old, there) ↦
      (record { at = i; old = old; there = there; jobs = ground arith }, ground arith)
]

deletejob-Written :
    (pid : ℤ) (s t : Shell)
    → deletejob pid s ≡ (true, t)
    → Written s t clearjob × (t.nextjid ≡ maxjid t.jobs + 1)
unfolding deletejob
deletejob-Written pid s t e = drop_job-Written s t (first_job (has_pid pid) s.jobs) (ground arith)

-- An entry after a write: the one written, or one that was there.
Written-cases :
    {s t : Shell} {fill : Job → Job} (w : Written s t fill) (i : ℕ) (a : Job)
    → get_elem? t.jobs i ≡ some a
    → ((w.at ≡ i) × (a ≡ fill w.old)) ⊎ (get_elem? s.jobs i ≡ some a)
Written-cases {s = s} {fill = fill} w i a at_i =
    get-set-cases s.jobs w.at i (fill w.old) a (ap (λ l. get_elem? l i) (sym w.jobs) ∙ at_i)

-- Writing an entry whose jid is 0 or the next one keeps the jids apart.
Written-apart :
    {s t : Shell} {fill : Job → Job}
    → IsNumbered s
    → (w : Written s t fill) → ((fill w.old).jid ≡ 0) ⊎ ((fill w.old).jid ≡ s.nextjid)
    → (i j : ℕ) (a b : Job) → get_elem? t.jobs i ≡ some a
    → get_elem? t.jobs j ≡ some b
    → a.jid ≡ b.jid
    → a.jid ≢ 0
    → i ≡ j
Written-apart g w new i j a b at_i at_j same some_jid = elim (Written-cases w i a at_i) [
  | inl p ↦ elim (Written-cases w j b at_j) [
    | inl q ↦ omega (arith, p.0, q.0)
    | inr q ↦ absurd (ground (arith, g.below j b q, p.1, new))
  ]
  | inr p ↦ elim (Written-cases w j b at_j) [
    | inl q ↦ absurd (ground (arith, g.below i a p, q.1, new))
    | inr q ↦ g.apart i j a b p q same some_jid
  ]
]

-- Deleting a job keeps the job ids of the others apart and below the next one.
pub deletejob-IsNumbered :
    (pid : ℤ) (s t : Shell) → deletejob pid s ≡ (true, t) → IsNumbered s → IsNumbered t
unfolding clearjob
deletejob-IsNumbered pid s t e g =
    let (w, counted) = deletejob-Written pid s t e in
    record {
      below = λ i job there. omega (arith, get-maxjid t.jobs i job there);
      apart = Written-apart g w (inl refl);
    }

-- With at most 15 ids given out, adding a job keeps the job ids apart and below the next one.
pub addjob-IsNumbered :
    (pid : ℤ) (state : JobState) (cmdline : List ℕ) (s t : Shell)
    → addjob pid state cmdline s ≡ ok (true, t)
    → s.nextjid < max_jobs
    → IsNumbered s
    → IsNumbered t
addjob-IsNumbered pid state cmdline s t e lt g =
    let (w, counted, _) = addjob-Written pid state cmdline s t e in
    record {
      below = λ i job there. elim (Written-cases w i job there) [
        | inl p ↦ ground (arith, p.1)
        | inr p ↦ ground (arith, g.below i job p)
      ];
      apart = Written-apart g w (inr refl);
    }

-- An entry that is in use stays as it is when a job is added.
addjob-get :
    (pid : ℤ) (state : JobState) (cmdline : List ℕ) (s t : Shell) (k : ℕ) (job : Job)
    → (e : addjob pid state cmdline s ≡ ok (true, t)) → get_elem? s.jobs k ≡ some job
    → is_free job ≡ false
    → ((addjob-Written pid state cmdline s t e).0.at ≢ k) × (get_elem? t.jobs k ≡ some job)
addjob-get pid state cmdline s t k job e there used =
    let (w, _, free) = addjob-Written pid state cmdline s t e in
    let apart : w.at ≢ k = λ same. ground (arith, w.there, there, free, used, same) in
    (apart, rw w.jobs (get-set_ne s.jobs w.at k (new_job pid state cmdline s w.old) apart ∙ there))

-- Once the ids have run up to MAXJOBS, the second of two jobs added gets the id 1, also where a job
-- with that id is in use: then two entries have it.
pub addjob_collides :
    (p q : ℤ) (state : JobState) (cmdline : List ℕ) (s t u : Shell) (k : ℕ) (job : Job)
    → max_jobs ≤ s.nextjid
    → addjob p state cmdline s ≡ ok (true, t)
    → addjob q state cmdline t ≡ ok (true, u)
    → get_elem? s.jobs k ≡ some job
    → is_free job ≡ false
    → job.jid ≡ 1
    → (j : ℕ) × (other : Job) × (j ≢ k)
      × (get_elem? u.jobs k ≡ some job)
      × (get_elem? u.jobs j ≡ some other)
      × (other.jid ≡ 1)
addjob_collides p q state cmdline s t u k job top first second there used one =
    let (_, counted, _) = addjob-Written p state cmdline s t first in
    let (_, still) = addjob-get p state cmdline s t k job first there used in
    let (w, _, _) = addjob-Written q state cmdline t u second in
    let (apart, kept) = addjob-get q state cmdline t u k job second still used in
    (
      w.at,
      new_job q state cmdline t w.old,
      apart,
      kept,
      ap (λ l. get_elem? l w.at) w.jobs
          ∙ get-set t.jobs w.at (new_job q state cmdline t w.old) w.there,
      ground (arith, counted, top),
    )
