-- ===== src/Manager/Requests.antt =====
-- What the manager thread of hw3/personal/SThread/sthread.c does: it creates threads, releases those
-- that end, and ends the process. What mmap, pipe, malloc and clone answer is an argument; a call that
-- only prints is left out.
pub mod Exit
pub mod Create
pub mod Unwind
pub mod Reap
pub mod Release
pub mod End
use cs.Base.{
  ℕ, zero, suc, Bool, true, false, Option, none, some, List, [], ◌∷◌, ◌==◌, ◌||◌, not,
  if◌then◌else◌,
}
use cs.Base.Int.{ℤ, pos, negsuc}
use cs.Manager.Run.{
  Thread, Call, kill, wait, unmap, close, write, exit, Process, Cmd, aborted, fault, out_of_fuel,
  done, pure, ◌>>=◌, ◌>>◌, manager_thread, main_thread, load, modify, call, free_thread,
}
use cs.Manager.Threads.{threadlist_findbypid, threadlist_add, threadlist_del}

abbrev pub def_stack_size : ℕ
def_stack_size = 4194304

abbrev pub sigkill : ℕ
sigkill = 9

abbrev pub sigusr2 : ℕ
sigusr2 = 12

-- MAP_FAILED, -1 as a pointer
abbrev pub map_failed : ℕ
map_failed = 4294967295

abbrev pub get_list_hd : Cmd (Option ℕ)
get_list_hd s = done s.list_hd s

unfoldable pub sthread_wake : ℕ → Cmd (Unit {0})
unfolding load call
sthread_wake t = do e ← load t; call (write e.write_end)

unfoldable pub thread_dealloc : ℕ → ℕ → Cmd (Unit {0})
unfolding threadlist_del load call free_thread
thread_dealloc fuel t = do
  threadlist_del fuel t
  e ← load t
  call (unmap e.stack e.stacksize)
  call (close e.read_end)
  call (close e.write_end)
  free_thread t

-- `for (; p && (p != &manager_thread); p = p->next) kill(p->pid, sig)`
unfoldable pub kill_loop : ℕ → ℕ → Option ℕ → Cmd (Unit {0})
unfolding load call
kill_loop zero sig p = λ _. out_of_fuel
kill_loop (suc n) sig none = pure tt
kill_loop (suc n) sig (some p) =
    if p == manager_thread
    then pure tt
    else (do e ← load p; call (kill e.pid sig); kill_loop n sig e.next)

-- `kill` for the pid of a static structure
unfoldable pub kill_thread : ℕ → ℕ → Cmd (Unit {0})
unfolding load call
kill_thread p sig = do e ← load p; call (kill e.pid sig)

-- What follows in reap_children when a thread died by a signal.
unfoldable pub pass_signal : ℕ → ℕ → Cmd Bool
unfolding kill_loop kill_thread call
pass_signal fuel sig = do
  hd ← get_list_hd
  kill_loop fuel sig hd
  kill_thread main_thread sig
  kill_thread manager_thread sig
  call exit
  pure false

-- reap_children, for the children that waitpid reports with the signal that ended them; false if it
-- ends the manager.
unfoldable pub reap_children : ℕ → List (ℤ × Option ℕ) → Cmd Bool
unfolding threadlist_findbypid thread_dealloc pass_signal
reap_children fuel [] = pure true
reap_children fuel ((pid, status) ∷ more) = do
  found ← threadlist_findbypid fuel pid
  elim found [
    | none ↦ aborted
    | some p ↦
        thread_dealloc fuel p
        >> elim status [ none ↦ reap_children fuel more | some sig ↦ pass_signal fuel sig ]
  ]

-- What the calls in do_create answer.
pub record Answers : Type 0 where
  pub mmap : Option ℕ
  pub pipe : Option (ℕ × ℕ)
  pub start_struct : Bool
  pub clone : Option ℕ

-- `caller->err = self->err` for the manager
unfoldable pub copy_err : ℕ → Cmd (Unit {0})
unfolding load modify
copy_err caller = do self ← load manager_thread; modify caller (λ e. record e { err = self.err })

-- From the label create_out.
unfoldable pub create_out : ℕ → Cmd (Unit {0})
unfolding modify
create_out caller = modify caller (λ e. record e { status = negsuc 0 })

-- From the label create_freestack: it passes to free what mmap returned, which is undefined.
abbrev pub create_freestack : Cmd (Unit {0})
create_freestack s = fault

-- From the label create_closepipe.
unfoldable pub create_closepipe : ℕ → Cmd (Unit {0})
unfolding load call
create_closepipe t = do
  e ← load t
  call (close e.read_end)
  call (close e.write_end)
  create_freestack

-- do_create from its call of clone on.
unfoldable pub create_clone : ℕ → ℕ → ℕ → Option ℕ → Cmd (Unit {0})
unfolding modify copy_err threadlist_del create_closepipe
create_clone fuel caller t none = do
  modify t (λ e. record e { pid = negsuc 0 })
  copy_err caller
  threadlist_del fuel t
  create_closepipe t
create_clone fuel caller t (some pid) = modify t (λ e. record e { pid = pos pid })

-- do_create from its call of pipe on.
unfoldable pub create_pipe : ℕ → ℕ → ℕ → Answers → Cmd (Unit {0})
unfolding modify copy_err threadlist_add create_clone create_closepipe
create_pipe fuel caller t a = elim a.pipe [
  | none ↦ copy_err caller >> create_freestack
  | some (r, w) ↦
      modify t (λ e. record e { read_end = r; write_end = w })
      >> (if a.start_struct
          then threadlist_add t >> create_clone fuel caller t a.clone
          else copy_err caller >> create_closepipe t)
]

unfoldable pub do_create : ℕ → ℕ → ℕ → ℕ → Answers → Cmd (Unit {0})
unfolding modify copy_err create_out create_pipe
do_create fuel caller t main a = do
  modify caller (λ e. record e { status = pos 0; err = 0 })
  modify t
      (λ e. record e { main = main; running = false; status = pos 0; stacksize = def_stack_size })
  elim a.mmap [
    | none ↦ modify t (λ e. record e { stack = map_failed }) >> copy_err caller >> create_out caller
    | some stack ↦ modify t (λ e. record e { stack = stack }) >> create_pipe fuel caller t a
  ]

-- The loop of MSG_ALL_EXIT that kills: all but the manager and the thread `t`.
unfoldable pub kill_others : ℕ → ℕ → Option ℕ → Cmd (Unit {0})
unfolding kill_thread load
kill_others zero t p = λ _. out_of_fuel
kill_others (suc n) t none = pure tt
kill_others (suc n) t (some p) = do
  (if (p == manager_thread) || (p == t) then pure tt else kill_thread p sigusr2)
  e ← load p
  kill_others n t e.next

unfoldable pub dealloc_waited : ℕ → ℕ → Cmd (Unit {0})
unfolding load call thread_dealloc
dealloc_waited fuel p = do e ← load p; call (wait e.pid); thread_dealloc fuel p

-- The loop of MSG_ALL_EXIT that waits and releases; it reads p->next after thread_dealloc(p).
unfoldable pub dealloc_others : ℕ → ℕ → ℕ → Option ℕ → Cmd (Unit {0})
unfolding dealloc_waited load
dealloc_others fuel zero t p = λ _. out_of_fuel
dealloc_others fuel (suc n) t none = pure tt
dealloc_others fuel (suc n) t (some p) = do
  (if (p == manager_thread) || (p == t) then pure tt else dealloc_waited fuel p)
  e ← load p
  dealloc_others fuel n t e.next

-- The messages; a function is a number, and its argument is left out.
pub data Message : Type 0 where
  create : (caller thread main : ℕ) → Message
  thread_exit : (caller : ℕ) → Message
  all_exit : (caller : ℕ) → Message

-- The `switch` of manager_main.
unfoldable pub handle : ℕ → Answers → Message → Cmd (Unit {0})
unfolding do_create sthread_wake load call thread_dealloc kill_others dealloc_others modify
    dealloc_waited
handle fuel a (create caller thread main) =
    do_create fuel caller thread main a >> sthread_wake caller
handle fuel a (thread_exit t) = sthread_wake t >> dealloc_waited fuel t
handle fuel a (all_exit t) = do
  sthread_wake t
  hd ← get_list_hd
  kill_others fuel t hd
  hd' ← get_list_hd
  dealloc_others fuel fuel t hd'
  modify manager_thread (λ e. record e { running = false })

-- One round of the loop of manager_main, with what getppid and waitpid say and the message that it
-- reads; false if the round ends the manager.
unfoldable pub manager_round : ℕ → Bool → List (ℤ × Option ℕ) → Answers → Message → Cmd Bool
unfolding kill_loop call reap_children handle load
manager_round fuel true reaped a msg = do
  hd ← get_list_hd
  kill_loop fuel sigkill hd
  call exit
  pure false
manager_round fuel false reaped a msg = do
  goes_on ← reap_children fuel reaped
  (if goes_on then (do handle fuel a msg; e ← load manager_thread; pure e.running) else pure false)
