-- ===== src/Lib.antt =====
-- Verification library of the CS2456 course repository: operating system homework in C. The parts
-- with logic of their own are modelled, each as a module of this library; a module's comment says
-- which file it is about.
--
-- Sync (hw3/personal/SThread/sync.c and sync.h) is the recursive mutex of the SThread library.
-- Sync/Queue has the structures and the queue routines (Q_init, Q_empty, Q_full, Q_first, Q_last,
-- Q_push, Q_pop as q_init to q_pop), Sync/Mutex the mutex routines (sthread_mutex_init, _destroy,
-- _lock, _trylock, _unlock as mutex_init to mutex_unlock). A pointer into the queue's array is an
-- index, NULL is none. An `int` counter is a number with int_inc, which faults at INT_MAX; `fault`
-- stands for undefined behaviour. A call that finds the word M taken replies `spins` and is
-- retried; a call that has M runs alone until it clears M, so it is one step. Sync/Threads puts
-- any number of threads over one mutex, as interleaved steps, with the pipes of sthread.c through
-- which sthread_wake reaches a thread in sthread_suspend.
--
-- Manager (hw3/personal/SThread/sthread.c) is the rest of the SThread library: its thread list and
-- the manager thread. Manager/Run has the commands over a memory of thread structures with their
-- next pointers; `fault` is undefined behaviour, `aborted` is abort(). Manager/Threads has
-- threadlist_findbypid, _add and _del, Manager/Requests has thread_dealloc, reap_children,
-- do_create and the switch of manager_main (handle), Manager/Client has sthread_init,
-- sthread_create, start_thread, cleanup and suspend. A loop over the list has fuel for its rounds,
-- one more than the list is long; the theorems ask for no more. A section under list_lock runs
-- alone. The answers of the kernel are arguments; the calls that are made are recorded.
--
-- Gwrr (hw4/sched_gwrr.c and sched_gwrr.h) is the group weighted round robin scheduling class:
-- enqueue_task_gwrr, dequeue_task_gwrr and pick_next_task_gwrr as enqueue_task, dequeue_task and
-- pick_next_task. The kernel's intrusive lists are sequences (list_add in front, list_add_tail and
-- list_move_tail at the end); a pointer to a list entry is its place. What kmalloc answers is an
-- argument. The spin lock covers each operation. The callbacks that do nothing, print_structure
-- and printk are left out.
--
-- FlatGwrr (hw4/1105/sched_gwrr.c) is the version of the class with one list of all tasks:
-- enqueue_task, dequeue_task and pick_next_task again. Its `goto retry` has a number of rounds,
-- and the second is the last that it needs, as the weights are above 0; FlatGwrr/Nested sorts the
-- tasks into the groups of Gwrr, and FlatGwrr/Agree is about the picks of both. That list_del and
-- kmalloc of the kernel work as documented is taken for granted.
--
-- Kersync (hw3/group/TURNED_IN_Qiyuan_Qiguang/kersync/kersync.c) is the event system calls:
-- doevent_open, doevent_enter (the part of wait and signal under list_lock), wait_check and
-- wait_leave, sig_body, close_find and close_body. Kersync/Calls has the order in which
-- sys_doevent_wait, _sig and _close run them, as interleaved steps of any number of processes. A
-- `count++` or `count--` is a read and a write in two steps (count_read and count_up, lock_event
-- and count_down), and the lock under which it stands is held in between; since the code takes
-- list_lock for the one and the event's e_lock for the other, the two can overlap. Kersync/Links
-- has what holds in every execution, and Kersync/Calm the executions in which two changes of one
-- event's count do not overlap. kmalloc's answer is an argument that is fresh; sleep_on and
-- wake_up are steps.
--
-- Rates (hw1/part_one.c) prints numbers of the kernel. Rates has the thread getinfo, which counts
-- sectors, context switches and processes, and Rates/Print the report without arguments (report)
-- and a round of printinfo. The lines of the files in /proc, sscanf and the float arithmetic are
-- parameters.
--
-- Shell (hw1/part_two.c) is the small shell. Shell/Jobs is its job list: clearjob, initjobs,
-- maxjid, addjob, deletejob, fgpid, getjobpid, getjobjid, pid2jid, listjobs and waitfg, by these
-- names, and Shell/Jobs/Handler is child_handler. What waitpid reports is an argument, the pids
-- killed are a result. waitfg's loop has its number of rounds from the job, as in the code; the
-- inner loop of child_handler reads the number anew, and is given as many rounds as it is at the
-- start. Shell/Line is the background mark of a line, is_pipe_bg and delete_bg_character.
-- Shell/Parse is parse_user_input and parse_cmds, with strtok_r; their loops have one round more
-- than the string has characters, which Shell/Parse/Loop shows to be enough, and the sizes that
-- malloc gives are a parameter. Shell/Pipeline is eval_cmd, with pipe and fork as parameters: the
-- descriptors of each process are a function from their numbers, and a child is followed up to its
-- call of execvp. The array oldpipe is taken to keep its value from round to round. Shell/Main is
-- a round of the loop of main over the globals (Session), with what it does to the outside as an
-- Effect: starts has the children that eval_cmd starts and the pids that waitpid is called with.
-- Shell/Main/Reach is any order of lines and of SIGCHLDs between them; child_status, which is
-- never read by main, is left out. The result of setgid is ignored by the code, and the call is
-- left out.
--
-- Prinfo models sys_cs2456_test of hw2/group/cs2456/cs2456_test.c, which fills the struct of
-- hw2/group/mysyscall/prinfo.h: the copy of the name, the loop over the children and the loop over
-- the siblings, as functions of what they read of the kernel's task structures. The walk over the
-- siblings goes around the whole ring, so that Task.visited holds the pids in the order of the
-- walk, the one read at the list head included. Prinfo/Family has the name and children,
-- Prinfo/Search the siblings, Prinfo/Call the whole call. Prinfo/Client is the program
-- hw2/group/mysyscall/mysyscall.c that makes the call and prints its answer as a table.
--
-- Memstats models hw5/memstats.c: the timer that moves reference bits into the counters of the
-- pages, and sys_memstats, which counts pages and bits; and the ageing policy in hw5/vmscan.c. A
-- list of pages is a List from its first page to its last; a loop that takes the last page of one
-- list and puts it in front of another is a recursion that handles the tail first. The bit
-- operations of the kernel return the old value of the bit, 0 or 1; page_mapped and PageAnon are
-- fields of a page. Locks are left out, as each loop holds the lock of its zone. Zone.around_head
-- is the memory that the second loop of the timer takes for a page. Files: Memstats (timer and
-- call), Memstats/Policy (vmscan.c), Memstats/Scan and Memstats/Timer (a tick), Memstats/Report
-- (what is counted), Memstats/Shrink (the policy), Memstats/Lives (its iteration).
--
-- Not modelled: the kernel sources that the homework copies (sched.c, sched_fair.c, sched_rt.c,
-- vmscan.c, main.c and their headers), list.h, which is a copy of the kernel's, the timing
-- programs, test drivers and generated files. The other parts of the repository's own code are
-- listed with their state in the components of the manifest.
pub mod Base
pub mod Sync
pub mod Gwrr
pub mod FlatGwrr
pub mod Kersync
pub mod Manager
pub mod Memstats
pub mod Prinfo
pub mod Rates
pub mod Shell
