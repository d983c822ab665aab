-- ===== src/Manager/Requests/End.antt =====
-- How the manager of hw3/personal/SThread/sthread.c ends the process (MSG_ALL_EXIT).
use cs.Base.{
  ℕ, suc, ◌<◌, ◌≡◌, ◌≢◌, refl, sym, ◌∙◌, ap, true, false, none, some, List, [], ◌∷◌, ◌++◌,
  if◌then◌else◌, arith, length, length-append, inl, inr, ◌⊎◌, ℕ_discrete, subst,
}
use cs.Base.Int.{ℤ, eq_ℤ, eq_ℤ_refl, eq_ℤ_comm}
use cs.Manager.Run.{
  Thread, Call, write, Process, Run, fault, done, aborted, ◌>>◌, manager_thread, main_thread,
  modify, call, load-done,
}
use cs.Manager.Threads.Chain.{Cells, has, Seg, nil, cons, find_pid}
use cs.Manager.Threads.State.{IsThreads}
use cs.Manager.Threads.Find.{everyone, everyone-Seg}
use cs.Manager.Requests.{Answers, all_exit, sthread_wake, dealloc_others, handle}
use cs.Manager.Requests.Release.{
  kill_others-done, release, release-fault_front, release-fault_behind, release-ends,
  release-aborts,
}

module _ (fuel t : ℕ) (a : Answers) (c : Thread) where
  -- The run up to the loop that releases.
  handle-dealloc_others :
      (cs : Cells) (s : Process) (g : IsThreads s cs)
      → length (everyone cs g) < fuel
      → s.memory t ≡ some c
      → (calls : List Call) × (handle fuel a (all_exit t) s
          ≡ (dealloc_others fuel fuel t s.list_hd
                >> modify manager_thread (λ e. record e { running = false }))
              (record s { calls = calls }))
  unfolding handle sthread_wake call
  handle-dealloc_others cs s g lt here =
      let s' = record s { calls = s.calls ++ write c.write_end ∷ [] } in
      let (calls, runs) = kill_others-done fuel t s' (everyone-Seg cs g) lt in
      (calls, rw (load-done t s here, runs) refl)

-- What becomes of MSG_ALL_EXIT from the thread `t`, by the threads that there are.
pub data Ending (t : ℕ) (cs : Cells) (r : Run (Unit {0})) : Type 0 where
  ends :
      cs ≡ []
      → t ≡ main_thread
      → (after : Process) → r ≡ done tt after
      → (m : Thread) → after.memory manager_thread ≡ some m
      → m.running ≡ false
      → Ending t cs r
  faults : (a : ℕ) → has a cs ≡ true → a ≢ t → r ≡ fault → Ending t cs r
  aborts : (q : ℤ) → cs ≡ (t, q) ∷ [] → (after : Process) → r ≡ aborted after → Ending t cs r

find_pid-head :
    (a : ℕ) (q : ℤ) (pid : ℤ) (cs : Cells) → pid ≡ q → find_pid pid ((a, q) ∷ cs) ≡ some a
unfolding find_pid
find_pid-head a q pid cs e = rw (e, eq_ℤ_refl q) refl

release-Ending_behind :
    (n t : ℕ) (s : Process) (q : ℤ) (rest : Cells) (g : IsThreads s ((t, q) ∷ rest)) (me : Thread)
    → length ((t, q) ∷ rest) < suc (suc (suc n))
    → find_pid g.main_pid ((t, q) ∷ rest) ≡ none
    → s.list_hd ≡ some t
    → s.memory t ≡ some me
    → has t rest ≡ false
    → Seg s.memory (some manager_thread) me.next rest
    → Ending t ((t, q) ∷ rest) (release n t s.list_hd s)
unfolding find_pid
release-Ending_behind n t s q rest g me lt other e here alone (nil e') =
    let not_main : t ≢ main_thread = λ same. ground (arith, g.no_main, same) in
    aborts q refl _ (release-aborts n t s ((t, q) ∷ []) g me lt e here e' not_main other)
release-Ending_behind n t s q rest g me lt other e here alone
      (cons b {pid = q'} next {cs = more} e' points alone' chain) =
    let apart : b ≢ t = λ same. ground (arith, alone, same) in
    let unlike : eq_ℤ q q' ≡ false = eq_ℤ_comm q q' ∙ ground (arith, g.distinct.0) in
    let hit : find_pid points.thread.pid ((t, q) ∷ (b, q') ∷ more) ≡ some b =
      ap (λ pid. find_pid pid ((t, q) ∷ (b, q') ∷ more)) points.pid_is
      ∙ ap (λ c. if c then some t else find_pid q' ((b, q') ∷ more)) unlike
      ∙ find_pid-head b q' q' more refl in
    faults b (ground arith) apart (
      release-fault_behind n t s ((t, q) ∷ (b, q') ∷ more) g b me points.thread lt e here e'
        points.there hit apart)

release-Ending :
    (n t : ℕ) (s : Process) (cs : Cells) (g : IsThreads s cs)
    → length cs < suc (suc (suc n))
    → (t ≡ main_thread) ⊎ (has t cs ≡ true)
    → find_pid g.main_pid cs ≡ none
    → Seg s.memory (some manager_thread) s.list_hd cs
    → Ending t cs (release n t s.list_hd s)
release-Ending n t s cs g lt who other (nil e) = elim who [
  | inl main ↦ ends refl main _ (release-ends n t s g main e) _ refl refl
  | inr listed ↦ absurd (ground (arith, listed))
]
release-Ending n t s cs g lt who other (cons a {pid = q} next {cs = rest} e points alone chain) =
    elim (ℕ_discrete a t) [
      | yes same ↦
          subst (λ u. Ending u ((a, q) ∷ rest) (release n u s.list_hd s)) same
            (release-Ending_behind n a s q rest g points.thread lt other e points.there alone
              (subst (λ p. Seg s.memory (some manager_thread) p rest) (sym points.next_is) chain))
      | no apart ↦ faults a (ground arith) apart (
          release-fault_front n t s ((a, q) ∷ rest) g a points.thread lt e points.there
            (find_pid-head a q points.thread.pid rest points.pid_is) apart)
    ]

-- When a thread ends the process, the manager gets through only if it is the main thread and there is no
-- other thread. If there is a thread besides the caller, the manager reads freed memory; if the caller
-- is the only one besides the main thread, the manager ends in abort.
pub handle_all_exit :
    (n t : ℕ) (a : Answers) (c : Thread) (cs : Cells) (s : Process) (g : IsThreads s cs)
    → length (everyone cs g) < suc (suc (suc n))
    → s.memory t ≡ some c
    → (t ≡ main_thread) ⊎ (has t cs ≡ true)
    → find_pid g.main_pid cs ≡ none
    → Ending t cs (handle (suc (suc (suc n))) a (all_exit t) s)
handle_all_exit n t a c cs s g lt here who other =
    let (calls, runs) = handle-dealloc_others (suc (suc (suc n))) t a c cs s g lt here in
    let g' : IsThreads (record s { calls = calls }) cs = record {
      chain = g.chain;
      no_manager = g.no_manager;
      no_main = g.no_main;
      distinct = g.distinct;
      manager_pid = g.manager_pid;
      main_pid = g.main_pid;
      manager = g.manager;
      main = g.main;
    } in
    let static : Cells = (manager_thread, g.manager_pid) ∷ (main_thread, g.main_pid) ∷ [] in
    subst (Ending t cs) (sym runs) (
      release-Ending n t (record s { calls = calls }) cs g'
        (omega (arith, lt, length-append cs static)) who other g.chain)
