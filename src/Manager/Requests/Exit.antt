-- ===== src/Manager/Requests/Exit.antt =====
-- How the manager of hw3/personal/SThread/sthread.c releases a thread.
use cs.Base.{
  ℕ, ◌<◌, ◌≡◌, ◌≢◌, refl, false, Option, none, some, List, [], ◌∷◌, ◌++◌, ◌==◌, ◌||◌, arith, length,
  append_assoc,
}
use cs.Base.Family.{update}
use cs.Manager.Run.{
  Thread, Call, wait, unmap, close, write, free, Process, done, manager_thread, main_thread, call,
  free_thread, load-done,
}
use cs.Manager.Threads.Chain.{Cells, has, Relinked, Points-same, Seg-update, find_pid, erase_pid}
use cs.Manager.Threads.State.{IsThreads, find_pid-has, threadlist_del-Removed}
use cs.Manager.Requests.{Answers, thread_exit, sthread_wake, thread_dealloc, dealloc_waited, handle}

-- The calls do not matter to the list.
pub IsThreads-calls :
    (s : Process) (cs : Cells) (calls : List Call)
    → IsThreads s cs
    → IsThreads (record s { calls = calls }) cs
IsThreads-calls s cs calls g = record {
  chain = g.chain;
  no_manager = g.no_manager;
  no_main = g.no_main;
  distinct = g.distinct;
  manager_pid = g.manager_pid;
  main_pid = g.main_pid;
  manager = g.manager;
  main = g.main;
}

-- Nor does what stands at an address outside it.
pub IsThreads-update :
    (s : Process) (cs : Cells) (t : ℕ) (c : Option Thread)
    → has t cs ≡ false
    → t ≢ manager_thread
    → t ≢ main_thread
    → IsThreads s cs
    → IsThreads (record s { memory = update s.memory t c }) cs
IsThreads-update s cs t c out h h' g = record {
  chain = Seg-update t c g.chain out;
  no_manager = g.no_manager;
  no_main = g.no_main;
  distinct = g.distinct;
  manager_pid = g.manager_pid;
  main_pid = g.main_pid;
  manager = Points-same (ground (arith, h)) g.manager;
  main = Points-same (ground (arith, h')) g.main;
}

-- A thread that has been released: it is off the list, and each thing that it had is given back once.
-- Of what stands elsewhere in memory at most a next pointer has changed, and outside the list nothing.
pub record Released (t : ℕ) (self : Thread) (cs : Cells) (s after : Process) : Type 0 where
  pub threads : IsThreads after (erase_pid self.pid cs)
  pub freed : after.memory t ≡ none
  pub calls :
      after.calls
      ≡ s.calls
        ++ unmap self.stack self.stacksize
          ∷ close self.read_end
          ∷ close self.write_end
          ∷ free t
          ∷ []
  pub others : (a : ℕ) → has a cs ≡ false → after.memory a ≡ s.memory a
  pub relinked : (a : ℕ) → a ≢ t → Relinked s.memory after.memory a

pub free_thread-done :
    (t : ℕ) (s : Process) {e : Thread}
    → t ≢ manager_thread
    → t ≢ main_thread
    → s.memory t ≡ some e
    → free_thread t s
      ≡ done tt (record s { memory = update s.memory t none; calls = s.calls ++ free t ∷ [] })
unfolding free_thread
free_thread-done t s h h' there =
    let not_static : ((t == manager_thread) || (t == main_thread)) ≡ false =
      ground (arith, h, h') in
    rw (not_static, there) refl

pub thread_dealloc-Released :
    (fuel t : ℕ) (self : Thread) (cs : Cells) (s : Process)
    → IsThreads s cs
    → length cs < fuel
    → s.memory t ≡ some self
    → find_pid self.pid cs ≡ some t
    → (after : Process) × (thread_dealloc fuel t s ≡ done tt after) × Released t self cs s after
unfolding thread_dealloc call
thread_dealloc-Released fuel t self cs s g lt here hit =
    let (mid, runs, r) = threadlist_del-Removed fuel t self cs s g lt here hit in
    let listed = find_pid-has self.pid cs t hit in
    let not_manager : t ≢ manager_thread = λ e. ground (arith, listed, g.no_manager, e) in
    let not_main : t ≢ main_thread = λ e. ground (arith, listed, g.no_main, e) in
    let closed =
      ((mid.calls ++ unmap self.stack self.stacksize ∷ []) ++ close self.read_end ∷ [])
      ++ close self.write_end ∷ [] in
    (
      record mid { memory = update mid.memory t none; calls = closed ++ free t ∷ [] },
      rw (runs, load-done t mid r.there)
          (free_thread-done t (record mid { calls = closed }) not_manager not_main r.there),
      record {
        threads =
            IsThreads-calls (record mid { memory = update mid.memory t none })
              (erase_pid self.pid cs) (closed ++ free t ∷ [])
              (IsThreads-update mid (erase_pid self.pid cs) t none r.gone not_manager not_main
                r.threads);
        freed = ground arith;
        calls = rw r.calls (simp append_assoc);
        others = λ a out. ground (arith, r.others a out, listed, out);
        relinked = λ a other. record {
          unused = λ e. ground (arith, other, (r.relinked a).unused e);
          used = λ e there.
              (let (next, now) = (r.relinked a).used e there in (next, ground (arith, other, now)));
        };
      },
    )

-- For the message of a thread of the list that its main routine has returned, the manager wakes the
-- thread, waits for its end, and then releases it: the thread is off the list and its structure freed,
-- and its stack and both ends of its pipe are given back once. Every other thread keeps all but its
-- next pointer, and those of the list are linked as before, without the one released.
pub handle_thread_exit :
    (fuel t : ℕ) (a : Answers) (self : Thread) (cs : Cells) (s : Process)
    → IsThreads s cs
    → length cs < fuel
    → s.memory t ≡ some self
    → find_pid self.pid cs ≡ some t
    → (after : Process) × (handle fuel a (thread_exit t) s ≡ done tt after)
      × Released t self cs
          (record s { calls = (s.calls ++ write self.write_end ∷ []) ++ wait self.pid ∷ [] })
          after
unfolding handle sthread_wake dealloc_waited call
handle_thread_exit fuel t a self cs s g lt here hit =
    let calls = (s.calls ++ write self.write_end ∷ []) ++ wait self.pid ∷ [] in
    let s' = record s { calls = calls } in
    let (after, runs, r) =
      thread_dealloc-Released fuel t self cs s' (IsThreads-calls s cs calls g) lt here hit in
    (
      after,
      rw
          (
            load-done t s here,
            load-done t (record s { calls = s.calls ++ write self.write_end ∷ [] }) here,
          )
          runs,
      r,
    )
