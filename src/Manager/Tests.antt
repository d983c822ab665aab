-- ===== src/Manager/Tests.antt =====
-- Runs of the thread manager of hw3/personal/SThread/sthread.c.
use cs.Base.{◌≡◌, refl, inl, true, none, some, [], ◌∷◌, ◌++◌, map, arith}
use cs.Base.Int.{pos}
use cs.Base.Family.{update}
use cs.Manager.Run.{Thread, Process, done, write, wait, manager_thread, main_thread}
use cs.Manager.Threads.Chain.{Cells, find_pid, nil, cons}
use cs.Manager.Threads.State.{IsThreads}
use cs.Manager.Requests.{Answers, thread_exit, all_exit, reap_children, handle}
use cs.Manager.Requests.Exit.{Released, handle_thread_exit}
use cs.Manager.Requests.Create.{started}
use cs.Manager.Requests.Reap.{Reaped, erase_all, reap_children_lem}
use cs.Manager.Requests.End.{Ending, handle_all_exit}
use cs.Manager.Client.{main_thread_init, manager_thread_init, sthread_create}
use cs.Manager.Client.New.{sthread_create_lem}

abbrev answers : Answers
answers = record { mmap = some 4096; pipe = some (8, 9); start_struct = true; clone = some 102 }

abbrev main_running : Thread
main_running = record main_thread_init { pid = pos 100; read_end = 4; write_end = 5 }

abbrev manager_running : Thread
manager_running = record manager_thread_init {
  pid = pos 101;
  running = true;
  read_end = 6;
  write_end = 7;
}

-- A process that has one thread besides the manager and the main thread, at the address 2.
abbrev worker : Thread
worker = started 7 4096 8 9 102 (some manager_thread) main_thread_init

abbrev idle : Process
idle = record {
  memory =
      update (update (λ _. none) manager_thread (some manager_running)) main_thread
        (some main_running);
  list_hd = some manager_thread;
  calls = [];
}

abbrev busy : Process
busy = record idle { memory = update idle.memory 2 (some worker); list_hd = some 2 }

idle-IsThreads : IsThreads idle []
idle-IsThreads = record {
  chain = nil refl;
  no_manager = refl;
  no_main = refl;
  distinct = tt;
  manager_pid = pos 101;
  main_pid = pos 100;
  manager = record { thread = manager_running; there = refl; pid_is = refl; next_is = refl };
  main = record { thread = main_running; there = refl; pid_is = refl; next_is = refl };
}

abbrev one_thread : Cells
one_thread = (2, pos 102) ∷ []

busy-IsThreads : IsThreads busy one_thread
unfolding find_pid
busy-IsThreads = record {
  chain =
      cons 2 (some manager_thread) refl
        (record { thread = worker; there = refl; pid_is = refl; next_is = refl }) refl (nil refl);
  no_manager = refl;
  no_main = refl;
  distinct = (refl, tt);
  manager_pid = pos 101;
  main_pid = pos 100;
  manager = record { thread = manager_running; there = refl; pid_is = refl; next_is = refl };
  main = record { thread = main_running; there = refl; pid_is = refl; next_is = refl };
}

sthread_create_lem_example :
    (after : Process) × (sthread_create 9 (pos 100) (some 2) main_thread_init 7 answers idle
      ≡ done (some 2, pos 0) after)
    × IsThreads after ((2, pos 102) ∷ [])
    × (after.memory 2 ≡ some (started 7 4096 8 9 102 (some manager_thread) main_thread_init))
unfolding find_pid idle-IsThreads
sthread_create_lem_example =
    sthread_create_lem 9 7 (pos 100) main_thread 2 answers 4096 8 9 102 main_running
      main_thread_init [] idle idle-IsThreads (omega arith) refl refl refl
      (record { mapped = refl; piped = refl; allocated = refl; cloned = refl }) refl

handle_thread_exit_example :
    (after : Process) × (handle 9 answers (thread_exit 2) busy ≡ done tt after)
    × Released 2 worker one_thread
        (record busy {
          calls = (busy.calls ++ write worker.write_end ∷ []) ++ wait worker.pid ∷ [];
        })
        after
unfolding find_pid
handle_thread_exit_example =
    handle_thread_exit 9 2 answers worker one_thread busy busy-IsThreads (omega arith) refl refl

reap_children_lem_example :
    (after : Process) × (reap_children 9 (map (λ pid. (pid, none)) (pos 102 ∷ [])) busy
      ≡ done true after)
    × Reaped after (pos 102 ∷ []) one_thread busy
    × IsThreads after (erase_all (pos 102 ∷ []) one_thread)
unfolding find_pid
reap_children_lem_example =
    reap_children_lem 9 (pos 102 ∷ []) one_thread busy busy-IsThreads (omega arith) ((2, refl), tt)

handle_all_exit_example :
    Ending main_thread one_thread (handle 9 answers (all_exit main_thread) busy)
unfolding find_pid busy-IsThreads
handle_all_exit_example =
    handle_all_exit 6 main_thread answers main_running one_thread busy busy-IsThreads (omega arith)
      refl (inl refl) refl
