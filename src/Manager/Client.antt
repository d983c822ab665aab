-- ===== src/Manager/Client.antt =====
-- The routines of hw3/personal/SThread/sthread.c that threads call: starting the library, creating a
-- thread, its start and end, and the end of the process. What getpid, mmap, pipe, clone and malloc answer
-- is an argument. A thread hands its message to the manager and suspends itself: sthread_create runs the
-- manager's part between the two. sigaction and atexit, which only register functions, are left out.
pub mod Init
pub mod New
use cs.Base.{ℕ, Bool, true, false, Option, none, some, [], if◌then◌else◌}
use cs.Base.Int.{ℤ, pos, negsuc, eq_ℤ}
use cs.Base.Family.{update}
use cs.Manager.Run.{
  Thread, read, exit, Process, Cmd, aborted, fault, done, pure, ◌>>=◌, ◌>>◌, manager_thread,
  main_thread, load, modify, call, free_thread,
}
use cs.Manager.Threads.{threadlist_findbypid}
use cs.Manager.Requests.{Answers, Message, create, thread_exit, all_exit, map_failed, handle}

abbrev pub util_stack_size : ℕ
util_stack_size = 65536

-- sthread_self, for the process id that getpid returns
unfoldable pub sthread_self : ℕ → ℤ → Cmd (Option ℕ)
unfolding threadlist_findbypid
sthread_self fuel pid = threadlist_findbypid fuel pid

-- _sthread_self_suspend; the read returns when there is something in the pipe.
unfoldable pub self_suspend : Option ℕ → Cmd (Unit {0})
unfolding load call
self_suspend none = aborted
self_suspend (some self) = do e ← load self; call (read e.read_end)

unfoldable pub sthread_suspend : ℕ → ℤ → Cmd (Unit {0})
unfolding sthread_self self_suspend
sthread_suspend fuel pid = do self ← sthread_self fuel pid; self_suspend self

-- start_thread up to its message, where the thread's main routine returns `retval`; what is left then
-- is self_suspend and _exit.
unfoldable pub start_thread : ℕ → ℤ → Cmd Message
unfolding modify
start_thread self retval = do
  modify self (λ e. record e { running = true })
  modify self (λ e. record e { running = false })
  modify self (λ e. record e { status = retval })
  pure (thread_exit self)

unfoldable pub end_thread : ℕ → Cmd (Unit {0})
unfolding self_suspend call
end_thread self = do self_suspend (some self); call exit

-- cleanup up to its message
unfoldable pub cleanup : ℕ → ℤ → Cmd (Option Message)
unfolding sthread_self
cleanup fuel pid = do
  self ← sthread_self fuel pid
  elim self [ none ↦ pure none | some p ↦ pure (some (all_exit p)) ]

-- The structures as MAIN_THREAD_INIT and MANAGER_THREAD_INIT set them; a pipe end -1 is a number that
-- no pipe has.
abbrev pub no_pipe_end : ℕ
no_pipe_end = 4294967295

abbrev pub main_thread_init : Thread
main_thread_init = record {
  pid = pos 0;
  main = 0;
  running = true;
  status = pos 0;
  err = 0;
  read_end = no_pipe_end;
  write_end = no_pipe_end;
  stacksize = 0;
  stack = 0;
  next = none;
}

abbrev pub manager_thread_init : Thread
manager_thread_init = record main_thread_init { running = false; next = some main_thread }

abbrev pub loaded : (ℕ → Option Thread) → Process
loaded m = record {
  memory =
      update (update m manager_thread (some manager_thread_init)) main_thread
        (some main_thread_init);
  list_hd = some manager_thread;
  calls = [];
}

unfoldable pub init_main_thread : ℤ → Option (ℕ × ℕ) → Cmd Bool
unfolding modify
init_main_thread pid pipe = do
  modify main_thread (λ e. record e { pid = pid })
  elim pipe [
    | none ↦ pure false
    | some (r, w) ↦ modify main_thread (λ e. record e { read_end = r; write_end = w }) >> pure true
  ]

-- `free(manager_thread.stack)` of what mmap returned is undefined.
abbrev pub free_manager_stack : Cmd Bool
free_manager_stack s = fault

unfoldable pub init_manager_thread : Answers → Cmd Bool
unfolding modify
init_manager_thread a = do
  modify manager_thread
      (λ e. record e { main = 0; running = true; status = pos 0; stacksize = util_stack_size })
  elim a.mmap [
    | none ↦ modify manager_thread (λ e. record e { stack = map_failed }) >> pure false
    | some stack ↦ modify manager_thread (λ e. record e { stack = stack }) >> elim a.pipe [
      | none ↦ free_manager_stack
      | some (r, w) ↦
          modify manager_thread (λ e. record e { read_end = r; write_end = w }) >> elim a.clone [
            | none ↦ free_manager_stack
            | some pid ↦ modify manager_thread (λ e. record e { pid = pos pid }) >> pure true
          ]
    ]
  ]

-- sthread_init: true for 0, false for -1.
unfoldable pub sthread_init : ℤ → Option (ℕ × ℕ) → Answers → Cmd Bool
unfolding init_main_thread init_manager_thread
sthread_init pid pipe a = do
  started ← init_main_thread pid pipe
  (if started then init_manager_thread a else pure false)

-- malloc of a thread structure, whose content is arbitrary
abbrev pub alloc : ℕ → Thread → Cmd (Unit {0})
alloc t u s = done tt (record s { memory = update s.memory t (some u) })

-- sthread_create behind its suspend: what it stores through `t`, and what it returns.
unfoldable pub create_end : ℕ → ℕ → Cmd (Option ℕ × ℤ)
unfolding load free_thread
create_end self newthr = do
  e ← load self
  (if eq_ℤ e.status (pos 0)
      then pure (some newthr, e.status)
      else (do free_thread newthr; e' ← load self; pure (none, e'.status)))

-- sthread_create in the process `pid`. malloc returns `newthr`.
unfoldable pub sthread_create : ℕ → ℤ → Option ℕ → Thread → ℕ → Answers → Cmd (Option ℕ × ℤ)
unfolding sthread_self handle self_suspend create_end
sthread_create fuel pid newthr u main a = do
  self ← sthread_self fuel pid
  elim newthr [
    | none ↦ pure (none, negsuc 0)
    | some t ↦ elim self [
      | none ↦ aborted
      | some p ↦
          alloc t u >> handle fuel a (create p t main) >> self_suspend (some p) >> create_end p t
    ]
  ]
