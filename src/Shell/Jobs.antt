-- ===== src/Shell/Jobs.antt =====
-- The job list of hw1/part_two.c: the helper routines on `jobs`, and waitfg. A pid is an integer, since
-- fork's -1 is stored as one. What waitpid reports in a round of a pid, as WIFEXITED reads it, is an
-- argument; the pids that are killed are a result.
pub mod Lookup
pub mod Add
pub mod Reap
pub mod Numbering
pub mod Handler
mod Tests
use cs.Base.{
  ℕ, zero, suc, ◌+◌, Bool, true, false, ◌&&◌, not, Option, none, some, List, [], ◌∷◌, ◌++◌, map,
  ltb, ◌==◌, if◌then◌else◌, get_elem?, set, replicate,
}
use cs.Base.Int.{ℤ, pos, eq_ℤ, below_one}
use cs.Base.Outcome.{Outcome, ok, fault, ◌>>=◌, deref}

abbrev pub max_jobs : ℕ
max_jobs = 16

abbrev pub max_cmd_num : ℕ
max_cmd_num = 8

pub data JobState : Type 0 where
  undef fg bg st : JobState

-- `struct job_t`; `cmdline` is the text before the 0 byte.
pub record Job : Type 0 where
  pub pid : ℤ
  pub jid : ℕ
  pub state : JobState
  pub cmdline : List ℕ
  pub pid_q : List ℤ
  pub pid_q_length : ℕ

-- The globals that the routines use.
pub record Shell : Type 0 where
  pub jobs : List Job
  pub nextjid : ℕ
  pub num_cmds : ℕ
  pub child_pids : List ℤ

-- `for(i=0;i<n;i++) q[i] = 0`
abbrev pub clear_first : ℕ → List ℤ → List ℤ
clear_first zero q = q
clear_first (suc n) [] = []
clear_first (suc n) (p ∷ q) = pos 0 ∷ clear_first n q

unfoldable pub clearjob : Job → Job
clearjob job = record {
  pid = pos 0;
  jid = 0;
  state = undef;
  cmdline = [];
  pid_q = clear_first job.pid_q_length job.pid_q;
  pid_q_length = 0;
}

unfoldable pub initjobs : List Job → List Job
unfolding clearjob
initjobs = map clearjob

unfoldable pub maxjid_from : ℕ → List Job → ℕ
maxjid_from max [] = max
maxjid_from max (job ∷ jobs) = maxjid_from (if ltb max job.jid then job.jid else max) jobs

unfoldable pub maxjid : List Job → ℕ
unfolding maxjid_from
maxjid = maxjid_from 0

-- The index of the first job that passes a test.
unfoldable pub first_job : (Job → Bool) → List Job → Option ℕ
first_job test [] = none
first_job test (job ∷ jobs) =
    let further = first_job test jobs in
    if test job then some 0 else elim further [ none ↦ none | some i ↦ some (suc i) ]

abbrev pub is_free : Job → Bool
is_free job = eq_ℤ job.pid (pos 0)

abbrev pub has_pid : ℤ → Job → Bool
has_pid pid job = eq_ℤ job.pid pid

-- `for(j=0;j<n;j++) to[j] = from[j]`, for arrays of MAX_CMD_NUM
abbrev pub copy_first : ℕ → List ℤ → List ℤ → List ℤ
copy_first zero from to = to
copy_first (suc n) (p ∷ from) (q ∷ to) = p ∷ copy_first n from to
copy_first (suc n) _ to = to

-- `nextjid++; if (nextjid > MAXJOBS) nextjid = 1`
abbrev pub advance : ℕ → ℕ
advance jid = if ltb max_jobs (jid + 1) then 1 else jid + 1

abbrev pub new_job : ℤ → JobState → List ℕ → Shell → Job → Job
new_job pid state cmdline s job = record {
  pid = pid;
  jid = s.nextjid;
  state = state;
  cmdline = cmdline;
  pid_q = copy_first s.num_cmds s.child_pids job.pid_q;
  pid_q_length = s.num_cmds;
}

-- The body of addjob's loop at the first free entry. More commands than MAX_CMD_NUM overrun the arrays.
unfoldable pub fill_job : ℤ → JobState → List ℕ → Shell → Option ℕ → Outcome (Bool × Shell)
fill_job pid state cmdline s none = ok (false, s)
fill_job pid state cmdline s (some i) = do
  job ← deref (get_elem? s.jobs i)
  (if ltb max_cmd_num s.num_cmds
      then fault
      else ok (
        true,
        record s {
          jobs = set s.jobs i (new_job pid state cmdline s job);
          nextjid = advance s.nextjid;
        },
      ))

unfoldable pub addjob : ℤ → JobState → List ℕ → Shell → Outcome (Bool × Shell)
unfolding fill_job first_job
addjob pid state cmdline s =
    if below_one pid then ok (false, s) else fill_job pid state cmdline s (first_job is_free s.jobs)

-- The body of deletejob's loop at the entry found.
unfoldable pub drop_job : Shell → Option ℕ → Bool × Shell
unfolding clearjob maxjid
drop_job s none = (false, s)
drop_job s (some i) = elim (get_elem? s.jobs i) [
  | none ↦ (false, s)
  | some job ↦
      (let jobs = set s.jobs i (clearjob job) in
        (true, record s { jobs = jobs; nextjid = maxjid jobs + 1 }))
]

unfoldable pub deletejob : ℤ → Shell → Bool × Shell
unfolding drop_job first_job
deletejob pid s = if below_one pid then (false, s) else drop_job s (first_job (has_pid pid) s.jobs)

abbrev pub is_fg : Job → Bool
is_fg job = elim job.state [ fg ↦ true | _ ↦ false ]

-- A field of the entry at an index, with what the routine returns where there is none.
abbrev pub field_at {ℓ} : {A : Type ℓ} → (Job → A) → A → List Job → Option ℕ → A
field_at f other jobs none = other
field_at f other jobs (some i) = elim (get_elem? jobs i) [ none ↦ other | some job ↦ f job ]

unfoldable pub fgpid : List Job → ℤ
unfolding first_job
fgpid jobs = field_at (λ job. job.pid) (pos 0) jobs (first_job is_fg jobs)

-- A `struct job_t *` is an index, `none` for NULL.
unfoldable pub getjobpid : ℤ → List Job → Option ℕ
unfolding first_job
getjobpid pid jobs = if below_one pid then none else first_job (has_pid pid) jobs

unfoldable pub getjobjid : ℕ → List Job → Option ℕ
unfolding first_job
getjobjid jid jobs = if ltb jid 1 then none else first_job (λ job. job.jid == jid) jobs

unfoldable pub pid2jid : ℤ → List Job → ℕ
unfolding first_job
pid2jid pid jobs =
    if below_one pid then 0 else field_at (λ job. job.jid) 0 jobs (first_job (has_pid pid) jobs)

-- What listjobs prints of each job.
unfoldable pub listjobs : List Job → List (ℕ × ℤ × JobState × List ℕ)
listjobs [] = []
listjobs (job ∷ jobs) =
    let rest = listjobs jobs in
    if is_free job then rest else (job.jid, job.pid, job.state, job.cmdline) ∷ rest

-- One round of waitfg on a pid: the pids killed, and what the round leaves.
unfoldable pub reap : Bool → ℤ → Shell → List ℤ × Shell
unfolding deletejob
reap exited pid s = if exited then (pid ∷ [], (deletejob pid s).1) else ([], s)

-- The loop of waitfg, with `n` rounds left from command `i` of the job at `place`. It reads pid_q anew
-- in each round, though deletejob may have cleared it.
unfoldable pub waitfg_loop : (ℕ → ℤ → Bool) → ℕ → ℕ → ℕ → Shell → Outcome (List ℤ × Shell)
unfolding reap
waitfg_loop exited place zero i s = ok ([], s)
waitfg_loop exited place (suc n) i s = do
  job ← deref (get_elem? s.jobs place)
  cnt_pid ← deref (get_elem? job.pid_q i)
  (kills, t) ← waitfg_loop exited place n (i + 1) (reap (exited i cnt_pid) cnt_pid s).1
  ok ((reap (exited i cnt_pid) cnt_pid s).0 ++ kills, t)

unfoldable pub waitfg : (ℕ → ℤ → Bool) → Option ℕ → Shell → Outcome (List ℤ × Shell)
unfolding waitfg_loop
waitfg exited p s = do
  place ← deref p
  job ← deref (get_elem? s.jobs place)
  waitfg_loop exited place job.pid_q_length 0 s

-- The `fg` command of main, with the jid that atoi read.
unfoldable pub fg_command : (ℕ → ℤ → Bool) → ℕ → Shell → Outcome (List ℤ × Shell)
unfolding waitfg getjobjid
fg_command exited jid s = waitfg exited (getjobjid jid s.jobs) s
