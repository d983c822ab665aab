-- ===== src/Manager/Client/Init.antt =====
-- sthread_init of hw3/personal/SThread/sthread.c.
use cs.Base.{ℕ, ◌≡◌, refl, true, Option, some, []}
use cs.Base.Int.{ℤ, pos}
use cs.Base.Family.{update}
use cs.Manager.Run.{Thread, Process, done, manager_thread, main_thread, modify}
use cs.Manager.Threads.Chain.{nil}
use cs.Manager.Threads.State.{IsThreads}
use cs.Manager.Requests.{Answers}
use cs.Manager.Client.{
  util_stack_size, main_thread_init, manager_thread_init, loaded, init_main_thread,
  init_manager_thread, sthread_init,
}

-- Where every call succeeds, sthread_init returns 0 and leaves the manager, running, and the main thread as
-- the only threads.
pub sthread_init_lem :
    (m : ℕ → Option Thread) (pid : ℤ) (r w : ℕ) (a : Answers) (stack r' w' pid' : ℕ)
    → a.mmap ≡ some stack
    → a.pipe ≡ some (r', w')
    → a.clone ≡ some pid'
    → (after : Process) × (sthread_init pid (some (r, w)) a (loaded m) ≡ done true after)
      × (g : IsThreads after []) × (g.manager_pid ≡ pos pid')
      × (g.main_pid ≡ pid)
      × (g.manager.thread.running ≡ true)
unfolding sthread_init init_main_thread init_manager_thread modify
sthread_init_lem m pid r w a stack r' w' pid' mapped piped cloned =
    let main0 = record main_thread_init { pid = pid } in
    let main1 = record main0 { read_end = r; write_end = w } in
    let manager0 = record manager_thread_init { running = true; stacksize = util_stack_size } in
    let manager1 = record manager0 { stack = stack } in
    let manager2 = record manager1 { read_end = r'; write_end = w' } in
    let manager3 = record manager2 { pid = pos pid' } in
    let m1 = update (update (loaded m).memory main_thread (some main0)) main_thread (some main1) in
    let m2 = update (update m1 manager_thread (some manager0)) manager_thread (some manager1) in
    let m3 = update (update m2 manager_thread (some manager2)) manager_thread (some manager3) in
    (
      record (loaded m) { memory = m3 },
      rw (mapped, piped, cloned) refl,
      record {
        chain = nil refl;
        no_manager = refl;
        no_main = refl;
        distinct = tt;
        manager_pid = pos pid';
        main_pid = pid;
        manager = record { thread = manager3; there = refl; pid_is = refl; next_is = refl };
        main = record { thread = main1; there = refl; pid_is = refl; next_is = refl };
      },
      refl,
      refl,
      refl,
    )
