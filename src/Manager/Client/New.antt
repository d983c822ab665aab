-- ===== src/Manager/Client/New.antt =====
-- sthread_create of hw3/personal/SThread/sthread.c, from the call to its return.
use cs.Base.{ℕ, ◌<◌, ◌≡◌, ◌≢◌, refl, false, Option, none, some, [], ◌∷◌, ◌++◌, arith, length}
use cs.Base.Int.{ℤ, pos, negsuc}
use cs.Base.Family.{update}
use cs.Manager.Run.{Thread, read, free, Process, done, manager_thread, main_thread, call, load-done}
use cs.Manager.Threads.Chain.{Memory, Cells, has, Seg, nil, cons, find_pid}
use cs.Manager.Threads.State.{IsThreads}
use cs.Manager.Threads.Find.{everyone, threadlist_findbypid-done}
use cs.Manager.Requests.{Answers}
use cs.Manager.Requests.Exit.{IsThreads-calls, IsThreads-update, free_thread-done}
use cs.Manager.Requests.Create.{failed, started, Succeeds, handle_create, handle_create_no_memory}
use cs.Manager.Client.{sthread_self, self_suspend, create_end, sthread_create}

-- Memory that malloc can return is no thread of the list.
fresh-has :
    {m : Memory} {stop p : Option ℕ} {cs : Cells} (t : ℕ)
    → Seg m stop p cs
    → m t ≡ none
    → has t cs ≡ false
fresh-has t (nil e) fresh = refl
fresh-has t (cons a next e points alone chain) fresh =
    ground (arith, fresh-has t chain fresh, points.there)

-- Where every call succeeds, sthread_create in a thread of the process returns 0 and stores a handle of
-- the new thread, which is then in front of the list with the pid that clone returned.
pub sthread_create_lem :
    (fuel main : ℕ) (pid : ℤ) (caller t : ℕ) (a : Answers) (stack r w pid' : ℕ) (c u : Thread)
    (cs : Cells) (s : Process)
    → (g : IsThreads s cs) → length (everyone cs g) < fuel
    → find_pid pid (everyone cs g) ≡ some caller
    → s.memory caller ≡ some c
    → s.memory t ≡ none
    → Succeeds a stack r w pid'
    → find_pid (pos pid') cs ≡ none
    → (after : Process) × (sthread_create fuel pid (some t) u main a s ≡ done (some t, pos 0) after)
      × IsThreads after ((t, pos pid') ∷ cs)
      × (after.memory t ≡ some (started main stack r w pid' s.list_hd u))
unfolding sthread_create sthread_self self_suspend create_end call
sthread_create_lem fuel main pid caller t a stack r w pid' c u cs s g lt found there fresh succeeds
      new =
    let s0 = record s { memory = update s.memory t (some u) } in
    let out = fresh-has t g.chain fresh in
    let not_manager : t ≢ manager_thread = λ e. ground (arith, g.manager.there, fresh, e) in
    let not_main : t ≢ main_thread = λ e. ground (arith, g.main.there, fresh, e) in
    let apart : caller ≢ t = λ e. ground (arith, there, fresh, e) in
    let g0 = IsThreads-update s cs t (some u) out not_manager not_main g in
    let still : s0.memory caller ≡ some c = ground (arith, apart, there) in
    let (after, runs, g1, caller_is, t_is, calls) =
      handle_create fuel caller t main a stack r w pid' c u cs s0 g0 succeeds still (ground arith)
        apart out not_manager not_main new in
    let calls' = after.calls ++ read c.read_end ∷ [] in
    (
      record after { calls = calls' },
      rw
          (
            threadlist_findbypid-done fuel pid cs s g lt,
            found,
            runs,
            load-done caller after caller_is,
            load-done caller (record after { calls = calls' }) caller_is,
          )
          refl,
      IsThreads-calls after ((t, pos pid') ∷ cs) calls' g1,
      t_is,
    )

-- Where mmap fails, sthread_create returns -1 and stores nothing; the list is as it was, and the structure
-- of the new thread is freed.
pub sthread_create_no_memory :
    (fuel main : ℕ) (pid : ℤ) (caller t : ℕ) (a : Answers) (c u : Thread) (cs : Cells) (s : Process)
    → (g : IsThreads s cs) → length (everyone cs g) < fuel
    → find_pid pid (everyone cs g) ≡ some caller
    → caller ≢ manager_thread
    → s.memory caller ≡ some c
    → s.memory t ≡ none
    → a.mmap ≡ none
    → (after : Process) × (sthread_create fuel pid (some t) u main a s
        ≡ done (none, negsuc 0) after)
      × IsThreads after cs
      × (after.memory t ≡ none)
unfolding sthread_create sthread_self self_suspend create_end call
sthread_create_no_memory fuel main pid caller t a c u cs s g lt found other there fresh failed_ =
    let s0 = record s { memory = update s.memory t (some u) } in
    let out = fresh-has t g.chain fresh in
    let not_manager : t ≢ manager_thread = λ e. ground (arith, g.manager.there, fresh, e) in
    let not_main : t ≢ main_thread = λ e. ground (arith, g.main.there, fresh, e) in
    let apart : caller ≢ t = λ e. ground (arith, there, fresh, e) in
    let g0 = IsThreads-update s cs t (some u) out not_manager not_main g in
    let still : s0.memory caller ≡ some c = ground (arith, apart, there) in
    let (after, runs, g1, caller_is, (new, new_is), calls) =
      handle_create_no_memory fuel caller t main a c u cs s0 g0 failed_ still (ground arith) apart
        out other not_manager not_main in
    let calls' = after.calls ++ read c.read_end ∷ [] in
    let s1 = record after { calls = calls' } in
    let m2 = update after.memory t none in
    let calls2 = calls' ++ free t ∷ [] in
    (
      record after { memory = m2; calls = calls2 },
      rw
          (
            threadlist_findbypid-done fuel pid cs s g lt,
            found,
            runs,
            load-done caller after caller_is,
            load-done caller s1 caller_is,
            free_thread-done t s1 not_manager not_main new_is,
            load-done caller (record after { memory = m2; calls = calls2 })
                {t = failed g0.manager.thread.err c} (ground (arith, apart, caller_is)),
          )
          refl,
      IsThreads-calls (record after { memory = m2 }) cs calls2
          (IsThreads-update after cs t none out not_manager not_main g1),
      ground arith,
    )
