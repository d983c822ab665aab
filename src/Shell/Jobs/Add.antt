-- ===== src/Shell/Jobs/Add.antt =====
-- addjob and deletejob of hw1/part_two.c together with the searches of the job list.
use cs.Base.{
  ℕ, zero, suc, ◌+◌, ◌≤◌, ◌≡◌, refl, ap, true, false, none, some, List, [], ◌∷◌, arith, get_elem?,
  set, replicate,
}
use cs.Base.Int.{ℤ, pos, eq_ℤ, eq_ℤ_iff}
use cs.Base.Outcome.{ok}
use cs.Shell.Jobs.{
  max_cmd_num, Job, JobState, undef, Shell, clear_first, clearjob, maxjid, first_job, is_free,
  has_pid, copy_first, advance, new_job, fill_job, addjob, drop_job, deletejob, getjobpid, pid2jid,
  field_at,
}
use cs.Shell.Jobs.Lookup.{set-set, set-get, get-set, first_job-get, first_job-set}

-- An entry that holds no job, as it is after initjobs and after deletejob.
abbrev pub blank : Job
blank = record {
  pid = pos 0;
  jid = 0;
  state = undef;
  cmdline = [];
  pid_q = replicate max_cmd_num (pos 0);
  pid_q_length = 0;
}

-- The shell after addjob has filled the entry at `i`.
abbrev pub filled : ℕ → Job → ℤ → JobState → List ℕ → Shell → Shell
filled i old pid state cmdline s = record s {
  jobs = set s.jobs i (new_job pid state cmdline s old);
  nextjid = advance s.nextjid;
}

-- What addjob does for a pid that fork gave, on its two branches.
pub addjob-filled :
    (p : ℕ) (state : JobState) (cmdline : List ℕ) (s : Shell) (i : ℕ) (old : Job)
    → s.num_cmds ≤ max_cmd_num
    → first_job is_free s.jobs ≡ some i
    → get_elem? s.jobs i ≡ some old
    → addjob (pos (suc p)) state cmdline s ≡ ok (true, filled i old (pos (suc p)) state cmdline s)
unfolding addjob fill_job
addjob-filled p state cmdline s i old few free there = rw (free, there) (ground arith)

pub addjob_full :
    (p : ℕ) (state : JobState) (cmdline : List ℕ) (s : Shell)
    → first_job is_free s.jobs ≡ none
    → addjob (pos (suc p)) state cmdline s ≡ ok (false, s)
unfolding addjob fill_job
addjob_full p state cmdline s free = rw free refl

clear_first-replicate : (n m : ℕ) → clear_first n (replicate m (pos 0)) ≡ replicate m (pos 0)
clear_first-replicate zero m = refl
clear_first-replicate (suc n) zero = refl
clear_first-replicate (suc n) (suc m) = ap (pos 0 ∷◌) (clear_first-replicate n m)

pub clear_first-copy_first :
    (n m : ℕ) (from : List ℤ)
    → clear_first n (copy_first n from (replicate m (pos 0))) ≡ replicate m (pos 0)
clear_first-copy_first zero m from = refl
clear_first-copy_first (suc n) zero [] = refl
clear_first-copy_first (suc n) zero (p ∷ from) = refl
clear_first-copy_first (suc n) (suc m) [] = ap (pos 0 ∷◌) (clear_first-replicate n m)
clear_first-copy_first (suc n) (suc m) (p ∷ from) = ap (pos 0 ∷◌) (clear_first-copy_first n m from)

has_pid_self : (pid : ℤ) → eq_ℤ pid pid ≡ true
has_pid_self pid = (eq_ℤ_iff pid pid).1 refl

-- With a free entry and at most MAX_CMD_NUM commands addjob stores the job, and then the search by the
-- pid of a new job finds it at that entry, with the jid that was next.
pub getjobpid-addjob :
    (p : ℕ) (state : JobState) (cmdline : List ℕ) (s : Shell) (i : ℕ)
    → s.num_cmds ≤ max_cmd_num
    → first_job is_free s.jobs ≡ some i
    → getjobpid (pos (suc p)) s.jobs ≡ none
    → (t : Shell) × (addjob (pos (suc p)) state cmdline s ≡ ok (true, t))
      × (getjobpid (pos (suc p)) t.jobs ≡ some i)
      × (pid2jid (pos (suc p)) t.jobs ≡ s.nextjid)
unfolding getjobpid pid2jid
getjobpid-addjob p state cmdline s i few free absent =
    let (old, there, _) = first_job-get is_free s.jobs i free in
    let job = new_job (pos (suc p)) state cmdline s old in
    let found =
      first_job-set (has_pid (pos (suc p))) s.jobs i job absent there
        (has_pid_self (pos (suc p))) in
    (
      filled i old (pos (suc p)) state cmdline s,
      addjob-filled p state cmdline s i old few free there,
      found,
      rw (found, field_at, get-set s.jobs i job there) refl,
    )

-- With a free entry that is blank, adding a job under a pid that no job has and deleting it again gives
-- the same job list; the next jid is then one above the largest in it.
pub deletejob-addjob :
    (p : ℕ) (state : JobState) (cmdline : List ℕ) (s : Shell) (i : ℕ)
    → s.num_cmds ≤ max_cmd_num
    → first_job is_free s.jobs ≡ some i
    → get_elem? s.jobs i ≡ some blank
    → getjobpid (pos (suc p)) s.jobs ≡ none
    → (t : Shell) × (addjob (pos (suc p)) state cmdline s ≡ ok (true, t))
      × (deletejob (pos (suc p)) t ≡ (true, record s { nextjid = maxjid s.jobs + 1 }))
unfolding getjobpid deletejob drop_job clearjob
deletejob-addjob p state cmdline s i few free there absent =
    let job = new_job (pos (suc p)) state cmdline s blank in
    let found =
      first_job-set (has_pid (pos (suc p))) s.jobs i job absent there
        (has_pid_self (pos (suc p))) in
    (
      filled i blank (pos (suc p)) state cmdline s,
      addjob-filled p state cmdline s i blank few free there,
      rw
          (
            found,
            drop_job,
            get-set s.jobs i job there,
            set-set s.jobs i job (clearjob job),
            clear_first-copy_first s.num_cmds max_cmd_num s.child_pids,
            set-get s.jobs i there,
          )
          refl,
    )
