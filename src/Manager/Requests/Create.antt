-- ===== src/Manager/Requests/Create.antt =====
-- How the manager of hw3/personal/SThread/sthread.c creates a thread.
use cs.Base.{
  ℕ, ◌≡◌, ◌≢◌, refl, ◌∙◌, ap, true, false, Option, none, some, [], ◌∷◌, ◌++◌, ◌==◌, arith,
  Bool-cases, inl, inr,
}
use cs.Base.Int.{ℤ, pos, negsuc}
use cs.Base.Family.{update, update-update}
use cs.Manager.Run.{
  Thread, write, Process, done, manager_thread, main_thread, modify, call, load-done, modify-done,
}
use cs.Manager.Threads.{threadlist_add}
use cs.Manager.Threads.Chain.{Memory, Cells, has, Points, Seg, nil, cons, find_pid}
use cs.Manager.Threads.State.{IsThreads}
use cs.Manager.Requests.{
  Answers, create, def_stack_size, map_failed, sthread_wake, copy_err, create_out, create_clone,
  create_pipe, do_create, handle,
}
use cs.Manager.Requests.Exit.{IsThreads-calls, IsThreads-update}

-- A memory in which each thread has its pid and its next pointer still.
record Keeps (m m' : Memory) : Type 0 where
  kept :
      (a : ℕ) (t : Thread)
      → m a ≡ some t
      → (t' : Thread) × (m' a ≡ some t') × (t'.pid ≡ t.pid) × (t'.next ≡ t.next)

Points-Keeps :
    {m m' : Memory} {a : ℕ} {pid : ℤ} {next : Option ℕ}
    → Keeps m m'
    → Points m a pid next
    → Points m' a pid next
Points-Keeps {a = a} k e =
    let (t, there, same_pid, same_next) = k.kept a e.thread e.there in
    record {
      thread = t;
      there = there;
      pid_is = same_pid ∙ e.pid_is;
      next_is = same_next ∙ e.next_is;
    }

Seg-Keeps :
    {m m' : Memory} {stop p : Option ℕ} {cs : Cells}
    → Keeps m m'
    → Seg m stop p cs
    → Seg m' stop p cs
Seg-Keeps k (nil e) = nil e
Seg-Keeps k (cons a next e points alone chain) =
    cons a next e (Points-Keeps k points) alone (Seg-Keeps k chain)

IsThreads-Keeps :
    (s : Process) (cs : Cells) (m : Memory)
    → Keeps s.memory m
    → IsThreads s cs
    → IsThreads (record s { memory = m }) cs
IsThreads-Keeps s cs m k g = record {
  chain = Seg-Keeps k g.chain;
  no_manager = g.no_manager;
  no_main = g.no_main;
  distinct = g.distinct;
  manager_pid = g.manager_pid;
  main_pid = g.main_pid;
  manager = Points-Keeps k g.manager;
  main = Points-Keeps k g.main;
}

-- A change of a thread's results leaves the list as it is.
pub IsThreads-result :
    (s : Process) (cs : Cells) (caller : ℕ) (c c' : Thread)
    → s.memory caller ≡ some c
    → c'.pid ≡ c.pid
    → c'.next ≡ c.next
    → IsThreads s cs
    → IsThreads (record s { memory = update s.memory caller (some c') }) cs
IsThreads-result s cs caller c c' there same_pid same_next g =
    IsThreads-Keeps s cs (update s.memory caller (some c'))
      (record {
        kept = λ a t is. elim (Bool-cases (caller == a)) [
          | inl e ↦ (
            c',
            ground (arith, e),
            ground (arith, e, is, there, same_pid),
            ground (arith, e, is, there, same_next),
          )
          | inr e ↦ (t, ground (arith, e, is), refl, refl)
        ];
      })
      g

-- The calling thread with the results that do_create sets at first, and at its failure.
abbrev pub cleared : Thread → Thread
cleared c = record c { status = pos 0; err = 0 }

abbrev pub failed : ℕ → Thread → Thread
failed err c = record c { status = negsuc 0; err = err }

-- The structure of a new thread when clone has returned; malloc's block was `u` before.
abbrev pub started : ℕ → ℕ → ℕ → ℕ → ℕ → Option ℕ → Thread → Thread
started main stack r w pid next u = record u {
  pid = pos pid;
  main = main;
  running = false;
  status = pos 0;
  read_end = r;
  write_end = w;
  stacksize = def_stack_size;
  stack = stack;
  next = next;
}

-- The state after a successful do_create.
abbrev pub created : ℕ → ℕ → Thread → Thread → Process → Process
created caller t c new s = record s {
  memory = update (update s.memory caller (some (cleared c))) t (some new);
  list_hd = some t;
}

-- Where every call that do_create makes succeeds.
pub record Succeeds (a : Answers) (stack r w pid : ℕ) : Type 0 where
  pub mapped : a.mmap ≡ some stack
  pub piped : a.pipe ≡ some (r, w)
  pub allocated : a.start_struct ≡ true
  pub cloned : a.clone ≡ some pid

-- A second write to one structure.
pub modify-again :
    (t : ℕ) (f : Thread → Thread) (m : Memory) (u : Thread) (s : Process)
    → modify t f (record s { memory = update m t (some u) })
      ≡ done tt (record s { memory = update m t (some (f u)) })
modify-again t f m u s =
    modify-done t f (record s { memory = update m t (some u) }) {t = u} (ground arith)
    ∙ ap (λ m'. done tt (record s { memory = m' })) (update-update m t (some u) (some (f u)))

pub do_create-created :
    (fuel caller t main : ℕ) (a : Answers) (stack r w pid : ℕ) (c u : Thread) (s : Process)
    → Succeeds a stack r w pid
    → s.memory caller ≡ some c
    → s.memory t ≡ some u
    → caller ≢ t
    → do_create fuel caller t main a s
      ≡ done tt (created caller t c (started main stack r w pid s.list_hd u) s)
unfolding do_create create_pipe create_clone threadlist_add
do_create-created fuel caller t main a stack r w pid c u s ok_ there there' apart =
    let m0 = update s.memory caller (some (cleared c)) in
    let u1 = record u {
      main = main;
      running = false;
      status = pos 0;
      stacksize = def_stack_size;
    } in
    let u2 = record u1 { stack = stack } in
    let u3 = record u2 { read_end = r; write_end = w } in
    let at0 : m0 t ≡ some u = ground (arith, apart) in
    rw
      (
        modify-done caller cleared s there,
        modify-done t
            (λ e. record e {
              main = main;
              running = false;
              status = pos 0;
              stacksize = def_stack_size;
            })
            (record s { memory = m0 }) at0,
        ok_.mapped,
        modify-again t (λ e. record e { stack = stack }) m0 u1 s,
        ok_.piped,
        modify-again t (λ e. record e { read_end = r; write_end = w }) m0 u2 s,
        ok_.allocated,
        modify-again t (λ e. record e { next = s.list_hd }) m0 u3 s,
        ok_.cloned,
      )
      (modify-again t (λ e. record e { pid = pos pid }) m0 (record u3 { next = s.list_hd })
        (record s { list_hd = some t }))

IsThreads-cons :
    (s : Process) (cs : Cells) (t : ℕ) (new : Thread)
    → IsThreads s cs
    → s.memory t ≡ some new
    → new.next ≡ s.list_hd
    → has t cs ≡ false
    → t ≢ manager_thread
    → t ≢ main_thread
    → find_pid new.pid cs ≡ none
    → IsThreads (record s { list_hd = some t }) ((t, new.pid) ∷ cs)
IsThreads-cons s cs t new g there linked out h h' fresh = record {
  chain =
      cons t s.list_hd refl
        (record { thread = new; there = there; pid_is = refl; next_is = linked }) out g.chain;
  no_manager = ground (arith, g.no_manager, h);
  no_main = ground (arith, g.no_main, h');
  distinct = (fresh, g.distinct);
  manager_pid = g.manager_pid;
  main_pid = g.main_pid;
  manager = g.manager;
  main = g.main;
}

-- Where a thread asks for a new one and every call succeeds, the manager puts the new thread in front of
-- the list, with the pid that clone returned, sets the caller's status to 0, and wakes the caller.
pub handle_create :
    (fuel caller t main : ℕ) (a : Answers) (stack r w pid : ℕ) (c u : Thread) (cs : Cells)
    (s : Process)
    → IsThreads s cs
    → Succeeds a stack r w pid
    → s.memory caller ≡ some c
    → s.memory t ≡ some u
    → caller ≢ t
    → has t cs ≡ false
    → t ≢ manager_thread
    → t ≢ main_thread
    → find_pid (pos pid) cs ≡ none
    → (after : Process) × (handle fuel a (create caller t main) s ≡ done tt after)
      × IsThreads after ((t, pos pid) ∷ cs)
      × (after.memory caller ≡ some (cleared c))
      × (after.memory t ≡ some (started main stack r w pid s.list_hd u))
      × (after.calls ≡ s.calls ++ write c.write_end ∷ [])
unfolding handle sthread_wake call
handle_create fuel caller t main a stack r w pid c u cs s g succeeds there there' apart out h h'
      fresh =
    let new = started main stack r w pid s.list_hd u in
    let s1 = record s { memory = update s.memory caller (some (cleared c)) } in
    let s2 = record s1 { memory = update s1.memory t (some new) } in
    let s3 = created caller t c new s in
    let g1 = IsThreads-result s cs caller c (cleared c) there refl refl g in
    let g2 = IsThreads-update s1 cs t (some new) out h h' g1 in
    let g3 = IsThreads-cons s2 cs t new g2 (ground arith) refl out h h' fresh in
    let calls = s.calls ++ write c.write_end ∷ [] in
    (
      record s3 { calls = calls },
      rw
          (
            do_create-created fuel caller t main a stack r w pid c u s succeeds there there' apart,
            load-done caller s3 {t = cleared c} (ground (arith, apart)),
          )
          refl,
      IsThreads-calls s3 ((t, pos pid) ∷ cs) calls g3,
      ground (arith, apart),
      ground arith,
      refl,
    )

-- Where mmap fails, the list stays as it is, and the caller gets the status -1 and the manager's errno.
pub handle_create_no_memory :
    (fuel caller t main : ℕ) (a : Answers) (c u : Thread) (cs : Cells) (s : Process)
    → (g : IsThreads s cs) → a.mmap ≡ none
    → s.memory caller ≡ some c
    → s.memory t ≡ some u
    → caller ≢ t
    → has t cs ≡ false
    → caller ≢ manager_thread
    → t ≢ manager_thread
    → t ≢ main_thread
    → (after : Process) × (handle fuel a (create caller t main) s ≡ done tt after)
      × IsThreads after cs
      × (after.memory caller ≡ some (failed g.manager.thread.err c))
      × ((new : Thread) × (after.memory t ≡ some new))
      × (after.calls ≡ s.calls ++ write c.write_end ∷ [])
unfolding handle sthread_wake call do_create copy_err create_out
handle_create_no_memory fuel caller t main a c u cs s g none_left there there' apart out not_manager
      h h' =
    let err = g.manager.thread.err in
    let m0 = update s.memory caller (some (cleared c)) in
    let u1 = record u {
      main = main;
      running = false;
      status = pos 0;
      stacksize = def_stack_size;
    } in
    let s0 = record s { memory = m0 } in
    let s2 = record s { memory = update m0 t (some (record u1 { stack = map_failed })) } in
    let c1 = record (cleared c) { err = err } in
    let s3 = record s { memory = update s2.memory caller (some (failed err c)) } in
    let still : s2.memory caller ≡ some (cleared c) = ground (arith, apart) in
    let g0 = IsThreads-result s cs caller c (cleared c) there refl refl g in
    let g2 = IsThreads-update s0 cs t (some (record u1 { stack = map_failed })) out h h' g0 in
    let g3 = IsThreads-result s2 cs caller (cleared c) (failed err c) still refl refl g2 in
    let calls = s.calls ++ write c.write_end ∷ [] in
    (
      record s3 { calls = calls },
      rw
          (
            modify-done caller cleared s there,
            modify-done t
                (λ e. record e {
                  main = main;
                  running = false;
                  status = pos 0;
                  stacksize = def_stack_size;
                })
                s0 {t = u} (ground (arith, apart)),
            none_left,
            modify-again t (λ e. record e { stack = map_failed }) m0 u1 s,
            load-done manager_thread s2 {t = g.manager.thread}
                (ground (arith, not_manager, h, g.manager.there)),
            modify-done caller (λ e. record e { err = err }) s2 still,
            modify-again caller (λ e. record e { status = negsuc 0 }) s2.memory c1 s,
            load-done caller s3 {t = failed err c} (ground arith),
          )
          refl,
      IsThreads-calls s3 cs calls g3,
      ground arith,
      (record u1 { stack = map_failed }, ground (arith, apart)),
      refl,
    )
