-- ===== src/Shell/Jobs/Handler/Rounds.antt =====
-- The rounds of child_handler's inner loop in hw1/part_two.c.
use cs.Base.{
  ℕ, zero, suc, ◌+◌, ◌<◌, ◌≤◌, ◌≡◌, refl, sym, ap, Bool, false, none, some, [], arith, ltb,
  get_elem?, length, inl, inr,
}
use cs.Base.Int.{ℤ}
use cs.Base.Outcome.{Outcome-cases, ok}
use cs.Shell.Jobs.{Job, Shell, reap}
use cs.Shell.Jobs.Lookup.{get-lt, get-total}
use cs.Shell.Jobs.Handler.{pid_at, with_kills, handler_entry}
use cs.Shell.Jobs.Handler.Cleared.{Cleared, Cleared-get, Cleared-length, reap-Cleared}

-- No more than `n` commands are left of the entry `i` from command `j` on.
abbrev pub IsShort : ℕ → ℕ → ℕ → Shell → Type 0
IsShort i n j s = (job : Job) → get_elem? s.jobs i ≡ some job → job.pid_q_length ≤ j + n

Cleared-IsShort :
    {s t : Shell} (i n j : ℕ) → Cleared s t → IsShort i (suc n) j s → IsShort i n (j + 1) t
Cleared-IsShort i n j c short job there = elim (Cleared-get c i job there) [
  | inl before ↦ omega (arith, short job before)
  | inr none_left ↦ omega (arith, none_left)
]

handler_entry-done :
    (exited : ℕ → ℤ → Bool) (i m j : ℕ) (s : Shell) (job : Job)
    → IsShort i 0 j s
    → get_elem? s.jobs i ≡ some job
    → handler_entry exited i m j s ≡ ok ([], s)
unfolding handler_entry pid_at
handler_entry-done exited i zero j s job short there = refl
handler_entry-done exited i (suc m) j s job short there =
    let done : ltb j job.pid_q_length ≡ false = ground (arith, short job there) in
    rw (there, done) refl

same_rounds :
    (exited : ℕ → ℤ → Bool) (i n m j : ℕ) (s : Shell)
    → i < length s.jobs
    → IsShort i n j s
    → IsShort i m j s
    → handler_entry exited i n j s ≡ handler_entry exited i m j s
unfolding handler_entry
same_rounds exited i zero m j s lt short_n short_m =
    let (job, there) = get-total s.jobs i lt in
    sym (handler_entry-done exited i m j s job short_n there)
same_rounds exited i (suc n) zero j s lt short_n short_m =
    let (job, there) = get-total s.jobs i lt in
    handler_entry-done exited i (suc n) j s job short_m there
same_rounds exited i (suc n) (suc m) j s lt short_n short_m =
    let (job, there) = get-total s.jobs i lt in
    rw there (elim (Outcome-cases (pid_at j job)) [
      | inl e ↦ rw e refl
      | inr (none, e) ↦ rw e refl
      | inr (some pid, e) ↦
          (let c = reap-Cleared (exited j pid) job.pid s in
            rw e (
              ap (with_kills (reap (exited j pid) job.pid s).0) (
                same_rounds exited i n m (j + 1) (reap (exited j pid) job.pid s).1
                  (omega (arith, lt, Cleared-length c)) (Cleared-IsShort i n j c short_n)
                  (Cleared-IsShort i m j c short_m))))
    ])

-- The inner loop ends by itself: any two numbers of rounds that are no less than the number of commands
-- left come to the same, so that the rounds of child_handler, one for each command, are enough.
pub handler_entry_enough :
    (exited : ℕ → ℤ → Bool) (i n m j : ℕ) (s : Shell) (job : Job)
    → get_elem? s.jobs i ≡ some job
    → job.pid_q_length ≤ j + n
    → job.pid_q_length ≤ j + m
    → handler_entry exited i n j s ≡ handler_entry exited i m j s
handler_entry_enough exited i n m j s job there le_n le_m =
    same_rounds exited i n m j s (get-lt s.jobs i there) (λ b at. ground (arith, at, there, le_n))
      (λ b at. ground (arith, at, there, le_m))
