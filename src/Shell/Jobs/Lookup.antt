-- ===== src/Shell/Jobs/Lookup.antt =====
-- Searches of the job list of hw1/part_two.c, and its entries after a write.
use cs.Base.{
  ℕ, zero, suc, ◌≤◌, ◌<◌, ◌≡◌, refl, ap, inl, inr, ◌⊎◌, ◌≢◌, Bool, true, false, none, some, List,
  [], ◌∷◌, arith, get_elem?, set, length, All, ltb, if◌then◌else◌,
}
use cs.Shell.Jobs.{Job, first_job, maxjid_from, maxjid}

module _ {ℓ} {A : Type ℓ} where
  pub set-set : (xs : List A) (i : ℕ) (a b : A) → set (set xs i a) i b ≡ set xs i b
  set-set [] i a b = refl
  set-set (x ∷ xs) zero a b = refl
  set-set (x ∷ xs) (suc i) a b = ap (x ∷◌) (set-set xs i a b)

  pub set-get : (xs : List A) (i : ℕ) {a : A} → get_elem? xs i ≡ some a → set xs i a ≡ xs
  set-get [] i h = refl
  set-get (x ∷ xs) zero h = ground arith
  set-get (x ∷ xs) (suc i) h = ap (x ∷◌) (set-get xs i h)

  pub get-set :
      (xs : List A) (i : ℕ) (a : A) {b : A}
      → get_elem? xs i ≡ some b
      → get_elem? (set xs i a) i ≡ some a
  get-set [] i a h = cc
  get-set (x ∷ xs) zero a h = refl
  get-set (x ∷ xs) (suc i) a h = get-set xs i a h

-- A search that finds an index finds an entry there that passes.
pub first_job-get :
    (test : Job → Bool) (jobs : List Job) (i : ℕ)
    → first_job test jobs ≡ some i
    → (job : Job) × (get_elem? jobs i ≡ some job) × (test job ≡ true)
unfolding first_job
first_job-get test [] i h = absurd cc
first_job-get test (job ∷ jobs) zero h = (job, refl, ground arith)
first_job-get test (job ∷ jobs) (suc i) h = first_job-get test jobs i (ground arith)

-- A search finds nothing exactly where no entry passes.
pub first_job-none :
    (test : Job → Bool) (jobs : List Job)
    → first_job test jobs ≡ none
    → All (λ job. test job ≡ false) jobs
unfolding first_job
first_job-none test [] h = tt
first_job-none test (job ∷ jobs) h = (ground arith, first_job-none test jobs (ground arith))

pub none-first_job :
    (test : Job → Bool) (jobs : List Job)
    → All (λ job. test job ≡ false) jobs
    → first_job test jobs ≡ none
unfolding first_job
none-first_job test [] h = refl
none-first_job test (job ∷ jobs) h = ground (arith, none-first_job test jobs h.1)

-- An entry that passes, written into a list where none does, is the one found.
pub first_job-set :
    (test : Job → Bool) (jobs : List Job) (i : ℕ) (job : Job) {old : Job}
    → first_job test jobs ≡ none
    → get_elem? jobs i ≡ some old
    → test job ≡ true
    → first_job test (set jobs i job) ≡ some i
unfolding first_job
first_job-set test [] i job h there e = cc
first_job-set test (x ∷ jobs) zero job h there e = rw e refl
first_job-set test (x ∷ jobs) (suc i) job h there e =
    let all = first_job-none test (x ∷ jobs) h in
    rw (all.0, first_job-set test jobs i job (none-first_job test jobs all.1) there e) refl

module _ {ℓ} {A : Type ℓ} where
  -- What an entry is after a write: the one written, or what it was.
  pub get-set-cases :
      (xs : List A) (i j : ℕ) (v b : A)
      → get_elem? (set xs i v) j ≡ some b
      → ((i ≡ j) × (b ≡ v)) ⊎ (get_elem? xs j ≡ some b)
  get-set-cases [] i j v b h = inr h
  get-set-cases (x ∷ xs) zero zero v b h = inl (refl, ground arith)
  get-set-cases (x ∷ xs) zero (suc j) v b h = inr h
  get-set-cases (x ∷ xs) (suc i) zero v b h = inr h
  get-set-cases (x ∷ xs) (suc i) (suc j) v b h = elim (get-set-cases xs i j v b h) [
    | inl both ↦ inl (ap suc both.0, both.1)
    | inr e ↦ inr e
  ]

  pub get-set_ne :
      (xs : List A) (i j : ℕ) (v : A) → i ≢ j → get_elem? (set xs i v) j ≡ get_elem? xs j
  get-set_ne [] i j v h = refl
  get-set_ne (x ∷ xs) zero zero v h = absurd (h refl)
  get-set_ne (x ∷ xs) zero (suc j) v h = refl
  get-set_ne (x ∷ xs) (suc i) zero v h = refl
  get-set_ne (x ∷ xs) (suc i) (suc j) v h = get-set_ne xs i j v (λ e. h (ap suc e))

maxjid_from-le : (max : ℕ) (jobs : List Job) → max ≤ maxjid_from max jobs
unfolding maxjid_from
maxjid_from-le max [] = omega arith
maxjid_from-le max (job ∷ jobs) =
    let further = maxjid_from-le (if ltb max job.jid then job.jid else max) jobs in ground arith

get-maxjid_from :
    (max : ℕ) (jobs : List Job) (i : ℕ) (job : Job)
    → get_elem? jobs i ≡ some job
    → job.jid ≤ maxjid_from max jobs
unfolding maxjid_from
get-maxjid_from max [] i job h = cc
get-maxjid_from max (x ∷ jobs) zero job h =
    let further = maxjid_from-le (if ltb max x.jid then x.jid else max) jobs in ground arith
get-maxjid_from max (x ∷ jobs) (suc i) job h =
    get-maxjid_from (if ltb max x.jid then x.jid else max) jobs i job h

-- No job has a jid above maxjid.
pub get-maxjid :
    (jobs : List Job) (i : ℕ) (job : Job) → get_elem? jobs i ≡ some job → job.jid ≤ maxjid jobs
unfolding maxjid
get-maxjid jobs i job h = get-maxjid_from 0 jobs i job h

pub get-cases {ℓ} :
    {A : Type ℓ} (xs : List A) (i : ℕ)
    → (get_elem? xs i ≡ none) ⊎ ((a : A) × (get_elem? xs i ≡ some a))
get-cases [] i = inl refl
get-cases (x ∷ xs) zero = inr (x, refl)
get-cases (x ∷ xs) (suc i) = get-cases xs i

pub get-total {ℓ} :
    {A : Type ℓ} (xs : List A) (i : ℕ) → i < length xs → (a : A) × (get_elem? xs i ≡ some a)
get-total [] i lt = absurd (omega arith)
get-total (x ∷ xs) zero lt = (x, refl)
get-total (x ∷ xs) (suc i) lt = get-total xs i (omega arith)

pub get-lt {ℓ} :
    {A : Type ℓ} (xs : List A) (i : ℕ) {a : A} → get_elem? xs i ≡ some a → i < length xs
get-lt [] i e = cc
get-lt (x ∷ xs) zero e = omega arith
get-lt (x ∷ xs) (suc i) e = omega (arith, get-lt xs i e)
