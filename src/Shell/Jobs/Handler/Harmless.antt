-- ===== src/Shell/Jobs/Handler/Harmless.antt =====
-- What child_handler of hw1/part_two.c kills.
use cs.Base.{
  ℕ, zero, suc, ◌+◌, ◌<◌, ◌≤◌, ◌≡◌, ◌≢◌, refl, Bool, true, false, some, List, [], ◌++◌, arith, ltb,
  get_elem?, length, All, All-append, Bool-cases, inl, inr,
}
use cs.Base.Int.{ℤ, below_one}
use cs.Base.Outcome.{Outcome, ok}
use cs.Shell.Jobs.{max_jobs, Job, Shell, is_free, reap}
use cs.Shell.Jobs.Lookup.{get-total}
use cs.Shell.Jobs.Handler.{
  pid_at, with_kills, handler_entry, handler_step, handler_loop, child_handler,
}
use cs.Shell.Jobs.Handler.Cleared.{Cleared, Cleared-get, Cleared-length, reap-Cleared}

-- An entry with commands has the pid of a process, and pid_q holds its commands.
pub record IsSound (s : Shell) : Type 0 where
  pub room : max_jobs ≤ length s.jobs
  pub owned :
      (i : ℕ) (job : Job)
      → get_elem? s.jobs i ≡ some job
      → job.pid_q_length ≢ 0
      → below_one job.pid ≡ false
  pub held :
      (i : ℕ) (job : Job) → get_elem? s.jobs i ≡ some job → job.pid_q_length ≤ length job.pid_q

Cleared-IsSound : {s t : Shell} → Cleared s t → IsSound s → IsSound t
Cleared-IsSound c g = record {
  room = omega (arith, g.room, Cleared-length c);
  owned = λ i job there some_cmds. elim (Cleared-get c i job there) [
    | inl p ↦ g.owned i job p some_cmds
    | inr p ↦ absurd (some_cmds p)
  ];
  held = λ i job there. elim (Cleared-get c i job there) [
    | inl p ↦ g.held i job p
    | inr p ↦ omega (arith, p)
  ];
}

-- A run that does not fault, kills no pid below 1 and keeps the list sound.
record IsHarmless (o : Outcome (List ℤ × Shell)) : Type 0 where
  kills : List ℤ
  after : Shell
  runs : o ≡ ok (kills, after)
  processes : All (λ pid. below_one pid ≡ false) kills
  sound : IsSound after

with_kills-IsHarmless :
    (kills : List ℤ) (o : Outcome (List ℤ × Shell))
    → All (λ pid. below_one pid ≡ false) kills
    → IsHarmless o
    → IsHarmless (with_kills kills o)
with_kills-IsHarmless kills o all h = record {
  kills = kills ++ h.kills;
  after = h.after;
  runs = rw h.runs refl;
  processes = All-append (λ pid. below_one pid ≡ false) kills h.kills all h.processes;
  sound = h.sound;
}

reap-kills :
    (b : Bool) (pid : ℤ) (s : Shell)
    → below_one pid ≡ false
    → All (λ p. below_one p ≡ false) (reap b pid s).0
unfolding reap
reap-kills false pid s h = tt
reap-kills true pid s h = (h, tt)

handler_entry-IsHarmless :
    (exited : ℕ → ℤ → Bool) (i n j : ℕ) (s : Shell)
    → i < max_jobs
    → IsSound s
    → IsHarmless (handler_entry exited i n j s)
unfolding handler_entry pid_at
handler_entry-IsHarmless exited i zero j s lt g = record {
  kills = [];
  after = s;
  runs = refl;
  processes = tt;
  sound = g;
}
handler_entry-IsHarmless exited i (suc n) j s lt g =
    let (job, there) = get-total s.jobs i (omega (arith, g.room)) in
    elim (Bool-cases (ltb j job.pid_q_length)) [
      | inl more ↦
          (let (pid, at_j) = get-total job.pid_q j (ground (arith, g.held i job there, more)) in
            let further =
              handler_entry-IsHarmless exited i n (j + 1) (reap (exited j pid) job.pid s).1 lt
                (Cleared-IsSound (reap-Cleared (exited j pid) job.pid s) g) in
            rw (there, more, at_j)
              (with_kills-IsHarmless _ _
                (reap-kills (exited j pid) job.pid s (g.owned i job there (ground (arith, more))))
                further))
      | inr done ↦
          rw (there, done)
            (record { kills = []; after = s; runs = refl; processes = tt; sound = g })
    ]

handler_step-IsHarmless :
    (exited : ℕ → ℤ → Bool) (i : ℕ) (s : Shell)
    → i < max_jobs
    → IsSound s
    → IsHarmless (handler_step exited i s)
unfolding handler_step
handler_step-IsHarmless exited i s lt g =
    let (job, there) = get-total s.jobs i (omega (arith, g.room)) in
    elim (Bool-cases (is_free job)) [
      | inl free ↦
          rw (there, free)
            (record { kills = []; after = s; runs = refl; processes = tt; sound = g })
      | inr used ↦ rw (there, used) (handler_entry-IsHarmless exited i job.pid_q_length 0 s lt g)
    ]

handler_loop-IsHarmless :
    (exited : ℕ → ℕ → ℤ → Bool) (n i : ℕ) (s : Shell)
    → i + n ≤ max_jobs
    → IsSound s
    → IsHarmless (handler_loop exited n i s)
unfolding handler_loop
handler_loop-IsHarmless exited zero i s le g = record {
  kills = [];
  after = s;
  runs = refl;
  processes = tt;
  sound = g;
}
handler_loop-IsHarmless exited (suc n) i s le g =
    let first = handler_step-IsHarmless (exited i) i s (omega arith) g in
    let further = handler_loop-IsHarmless exited n (i + 1) first.after (omega arith) first.sound in
    rw first.runs (with_kills-IsHarmless first.kills _ first.processes further)

-- In a sound job list, whatever waitpid reports, child_handler runs to its end within the arrays, kills
-- pids of processes only (never 0 or below, which stand for groups), and leaves the list sound.
pub child_handler_lem :
    (exited : ℕ → ℕ → ℤ → Bool) (s : Shell)
    → IsSound s
    → (kills : List ℤ) × (t : Shell) × (child_handler exited s ≡ ok (kills, t))
      × All (λ pid. below_one pid ≡ false) kills
      × IsSound t
unfolding child_handler
child_handler_lem exited s g =
    let h = handler_loop-IsHarmless exited max_jobs 0 s (omega arith) g in
    (h.kills, h.after, h.runs, h.processes, h.sound)
