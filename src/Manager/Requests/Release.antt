-- ===== src/Manager/Requests/Release.antt =====
-- The loops of MSG_ALL_EXIT in hw3/personal/SThread/sthread.c.
use cs.Base.{
  ℕ, zero, suc, ◌<◌, ◌≡◌, ◌≢◌, refl, ◌∙◌, ap, true, false, Option, none, some, List, [], ◌∷◌, ◌++◌,
  ◌==◌, ◌||◌, arith, length, Bool-cases, inl, inr,
}
use cs.Base.Family.{update}
use cs.Manager.Run.{
  Thread, Call, wait, kill, Process, Run, fault, done, aborted, ◌>>◌, manager_thread, main_thread,
  modify, call, load-done, load-fault, modify-done,
}
use cs.Manager.Threads.{threadlist_del}
use cs.Manager.Threads.Chain.{Cells, Seg, nil, cons, find_pid}
use cs.Manager.Threads.State.{IsThreads, find_pid-has}
use cs.Manager.Threads.Find.{del_loop-aborted}
use cs.Manager.Requests.{
  sigusr2, thread_dealloc, kill_thread, kill_others, dealloc_waited, dealloc_others,
}
use cs.Manager.Requests.Exit.{IsThreads-calls, thread_dealloc-Released}

-- The loop that kills writes nothing but its calls.
pub kill_others-done :
    (n t : ℕ) {p : Option ℕ} {cs : Cells} (s : Process)
    → Seg s.memory none p cs
    → length cs < n
    → (calls : List Call) × (kill_others n t p s ≡ done tt (record s { calls = calls }))
unfolding kill_others kill_thread call
kill_others-done zero t s chain lt = absurd (omega arith)
kill_others-done (suc n) t s (nil e) lt = (s.calls, rw e refl)
kill_others-done (suc n) t s (cons a next e points alone chain) lt =
    elim (Bool-cases ((a == manager_thread) || (a == t))) [
      | inl skip ↦
          (let (calls, runs) = kill_others-done n t s chain (omega (arith, lt)) in
            (calls, rw (e, skip, load-done a s points.there, points.next_is) runs))
      | inr victim ↦
          (let s' = record s { calls = s.calls ++ kill points.thread.pid sigusr2 ∷ [] } in
            let (calls, runs) = kill_others-done n t s' chain (omega (arith, lt)) in
            (
              calls,
              rw
                  (
                    e,
                    victim,
                    load-done a s points.there,
                    load-done a s' points.there,
                    points.next_is,
                  )
                  runs,
            ))
    ]

-- The loop that releases reads the next pointer of the thread that it has just freed.
dealloc_others-fault :
    (fuel n t a : ℕ) (self : Thread) (cs : Cells) (s : Process)
    → IsThreads s cs
    → length cs < fuel
    → s.memory a ≡ some self
    → find_pid self.pid cs ≡ some a
    → a ≢ t
    → dealloc_others fuel (suc n) t (some a) s ≡ fault
unfolding dealloc_others dealloc_waited call
dealloc_others-fault fuel n t a self cs s g lt here hit other =
    let listed = find_pid-has self.pid cs a hit in
    let victim : ((a == manager_thread) || (a == t)) ≡ false =
      ground (arith, g.no_manager, listed, other) in
    let s' = record s { calls = s.calls ++ wait self.pid ∷ [] } in
    let (after, runs, r) =
      thread_dealloc-Released fuel a self cs s' (IsThreads-calls s cs s'.calls g) lt here hit in
    rw (victim, load-done a s here, runs, load-fault a after r.freed) refl

-- It passes over the manager and the caller.
dealloc_others-skip :
    (fuel n t a : ℕ) (e : Thread) (s : Process)
    → s.memory a ≡ some e
    → ((a == manager_thread) || (a == t)) ≡ true
    → dealloc_others fuel (suc n) t (some a) s ≡ dealloc_others fuel n t e.next s
unfolding dealloc_others
dealloc_others-skip fuel n t a e s here skip = rw (skip, load-done a s here) refl

-- Releasing the main thread ends in abort, since threadlist_del stops at the manager before it.
dealloc_others-aborted :
    (fuel n t : ℕ) (cs : Cells) (s : Process) (g : IsThreads s cs)
    → length cs < fuel
    → t ≢ main_thread
    → find_pid g.main_pid cs ≡ none
    → dealloc_others fuel (suc n) t (some main_thread) s
      ≡ aborted (record s { calls = s.calls ++ wait g.main_pid ∷ [] })
unfolding dealloc_others dealloc_waited thread_dealloc threadlist_del call
dealloc_others-aborted fuel n t cs s g lt other miss =
    let self = g.main.thread in
    let victim : ((main_thread == manager_thread) || (main_thread == t)) ≡ false =
      ground (arith, other) in
    let s' = record s { calls = s.calls ++ wait g.main_pid ∷ [] } in
    let miss' : find_pid self.pid cs ≡ none = rw g.main.pid_is miss in
    rw
      (
        victim,
        load-done main_thread s g.main.there,
        g.main.pid_is,
        del_loop-aborted fuel main_thread self none s.list_hd s' g.main.there g.chain g.no_manager
            lt miss',
      )
      refl

-- The loop that releases, and what follows it.
module _ (n t : ℕ) where
  abbrev pub release : Option ℕ → Process → Run (Unit {0})
  release hd =
      dealloc_others (suc (suc (suc n))) (suc (suc (suc n))) t hd
      >> modify manager_thread (λ e. record e { running = false })

  release-fault :
      (hd : Option ℕ) (s : Process)
      → dealloc_others (suc (suc (suc n))) (suc (suc (suc n))) t hd s ≡ fault
      → release hd s ≡ fault
  release-fault hd s e = rw e refl

  -- No thread but the caller: the manager and the main thread are what is left.
  release_static :
      (fuel k : ℕ) (s : Process) (cs : Cells) (g : IsThreads s cs)
      → length cs < fuel
      → dealloc_others fuel (suc k) t (some manager_thread) s
        ≡ dealloc_others fuel k t (some main_thread) s
  release_static fuel k s cs g lt =
      dealloc_others-skip fuel k t manager_thread g.manager.thread s g.manager.there refl
      ∙ ap (λ p. dealloc_others fuel k t p s) g.manager.next_is

  -- The main thread is the caller and there is no other.
  pub release-ends :
      (s : Process) (g : IsThreads s [])
      → t ≡ main_thread
      → s.list_hd ≡ some manager_thread
      → release s.list_hd s
        ≡ done tt (record s {
          memory =
              update s.memory manager_thread (some (record g.manager.thread { running = false }));
        })
  unfolding dealloc_others
  release-ends s g who e =
      let fuel = suc (suc (suc n)) in
      let skip : ((main_thread == manager_thread) || (main_thread == t)) ≡ true =
        ground (arith, who) in
      let runs : dealloc_others fuel fuel t s.list_hd s ≡ done tt s =
        ap (λ p. dealloc_others fuel fuel t p s) e
        ∙ release_static fuel (suc (suc n)) s [] g (omega arith)
        ∙ dealloc_others-skip fuel (suc n) t main_thread g.main.thread s g.main.there skip
        ∙ ap (λ p. dealloc_others fuel (suc n) t p s) g.main.next_is in
      rw runs (modify-done manager_thread (λ e. record e { running = false }) s g.manager.there)

  -- Another thread than the caller, in front or behind it.
  pub release-fault_front :
      (s : Process) (cs : Cells) (g : IsThreads s cs) (a : ℕ) (self : Thread)
      → length cs < suc (suc (suc n))
      → s.list_hd ≡ some a
      → s.memory a ≡ some self
      → find_pid self.pid cs ≡ some a
      → a ≢ t
      → release s.list_hd s ≡ fault
  release-fault_front s cs g a self lt e there hit other =
      let fuel = suc (suc (suc n)) in
      release-fault s.list_hd s (
        ap (λ p. dealloc_others fuel fuel t p s) e
        ∙ dealloc_others-fault fuel (suc (suc n)) t a self cs s g lt there hit other)

  pub release-fault_behind :
      (s : Process) (cs : Cells) (g : IsThreads s cs) (b : ℕ) (me self : Thread)
      → length cs < suc (suc (suc n))
      → s.list_hd ≡ some t
      → s.memory t ≡ some me
      → me.next ≡ some b
      → s.memory b ≡ some self
      → find_pid self.pid cs ≡ some b
      → b ≢ t
      → release s.list_hd s ≡ fault
  release-fault_behind s cs g b me self lt e here next there hit other =
      let fuel = suc (suc (suc n)) in
      let skip : ((t == manager_thread) || (t == t)) ≡ true = ground arith in
      release-fault s.list_hd s (
        ap (λ p. dealloc_others fuel fuel t p s) e
        ∙ dealloc_others-skip fuel (suc (suc n)) t t me s here skip
        ∙ ap (λ p. dealloc_others fuel (suc (suc n)) t p s) next
        ∙ dealloc_others-fault fuel (suc n) t b self cs s g lt there hit other)

  -- The caller is the only thread besides the main one.
  pub release-aborts :
      (s : Process) (cs : Cells) (g : IsThreads s cs) (me : Thread)
      → length cs < suc (suc (suc n))
      → s.list_hd ≡ some t
      → s.memory t ≡ some me
      → me.next ≡ some manager_thread
      → t ≢ main_thread
      → find_pid g.main_pid cs ≡ none
      → release s.list_hd s ≡ aborted (record s { calls = s.calls ++ wait g.main_pid ∷ [] })
  release-aborts s cs g me lt e here next other miss =
      let fuel = suc (suc (suc n)) in
      let skip : ((t == manager_thread) || (t == t)) ≡ true = ground arith in
      let runs : dealloc_others fuel fuel t s.list_hd s
          ≡ aborted (record s { calls = s.calls ++ wait g.main_pid ∷ [] }) =
        ap (λ p. dealloc_others fuel fuel t p s) e
        ∙ dealloc_others-skip fuel (suc (suc n)) t t me s here skip
        ∙ ap (λ p. dealloc_others fuel (suc (suc n)) t p s) next
        ∙ release_static fuel (suc n) s cs g lt
        ∙ dealloc_others-aborted fuel n t cs s g lt other miss in
      rw runs refl
