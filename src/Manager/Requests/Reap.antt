-- ===== src/Manager/Requests/Reap.antt =====
-- reap_children of hw3/personal/SThread/sthread.c for threads that have ended by themselves.
use cs.Base.{
  ℕ, ◌+◌, ◌<◌, ◌≤◌, ◌≡◌, refl, ◌∙◌, ap, subst, true, Option, none, some, List, [], ◌∷◌, ◌++◌, arith,
  length, length-append, map, Bool-cases, inl, inr,
}
use cs.Base.Int.{ℤ, eq_ℤ, eq_ℤ_iff}
use cs.Manager.Run.{Thread, Process, done, aborted, manager_thread, main_thread}
use cs.Manager.Threads.Chain.{Cells, Seg, nil, cons, find_pid, erase_pid}
use cs.Manager.Threads.State.{IsThreads}
use cs.Manager.Threads.Find.{everyone, threadlist_findbypid-done}
use cs.Manager.Requests.{reap_children}
use cs.Manager.Requests.Exit.{Released, thread_dealloc-Released}

-- The thread that is found by a pid stands in memory with that pid.
find_pid-Points :
    (m : ℕ → Option Thread) (pid : ℤ) (t : ℕ) {stop p : Option ℕ} {cs : Cells}
    → Seg m stop p cs
    → find_pid pid cs ≡ some t
    → (e : Thread) × (m t ≡ some e) × (e.pid ≡ pid)
unfolding find_pid
find_pid-Points m pid t (nil e) hit = cc
find_pid-Points m pid t (cons a {pid = q} next {cs} e points alone chain) hit =
    elim (Bool-cases (eq_ℤ q pid)) [
      | inl same ↦ (
        points.thread,
        ap m (ground (arith, same, hit)) ∙ points.there,
        points.pid_is ∙ (eq_ℤ_iff q pid).0 same,
      )
      | inr other ↦ find_pid-Points m pid t chain (ground (arith, hit, other))
    ]

find_pid-append :
    (pid : ℤ) (cs ds : Cells) (t : ℕ) → find_pid pid cs ≡ some t → find_pid pid (cs ++ ds) ≡ some t
unfolding find_pid
find_pid-append pid [] ds t hit = cc
find_pid-append pid ((a, q) ∷ cs) ds t hit = ground (arith, hit, find_pid-append pid cs ds t)

length-erase_pid : (pid : ℤ) (cs : Cells) → length (erase_pid pid cs) ≤ length cs
unfolding erase_pid
length-erase_pid pid [] = omega arith
length-erase_pid pid ((a, q) ∷ cs) = ground (arith, length-erase_pid pid cs)

-- Each pid that waitpid reports is that of a thread of the list, and is reported once.
abbrev pub AreListed : List ℤ → Cells → Type 0
AreListed [] cs = Unit
AreListed (pid ∷ pids) cs =
    ((t : ℕ) × (find_pid pid cs ≡ some t)) × AreListed pids (erase_pid pid cs)

abbrev pub erase_all : List ℤ → Cells → Cells
erase_all [] cs = cs
erase_all (pid ∷ pids) cs = erase_all pids (erase_pid pid cs)

-- Threads that are released one after the other.
pub data Reaped (after : Process) : List ℤ → Cells → Process → Type 0 where
  over : {cs : Cells} → Reaped after [] cs after
  reaped :
      {pid : ℤ} {pids : List ℤ} {cs : Cells} {s : Process} (t : ℕ) (self : Thread) (mid : Process)
      → find_pid pid cs ≡ some t
      → s.memory t ≡ some self
      → self.pid ≡ pid
      → Released t self cs s mid
      → Reaped after pids (erase_pid pid cs) mid
      → Reaped after (pid ∷ pids) cs s

-- Where waitpid reports threads of the list that have ended by themselves, reap_children releases
-- these one after the other, and goes on: each is taken off the list, its structure freed, and its
-- stack and both ends of its pipe are given back once; every other thread keeps all but its next
-- pointer. The list is then the old one without these threads.
pub reap_children_lem :
    (fuel : ℕ) (pids : List ℤ) (cs : Cells) (s : Process)
    → IsThreads s cs
    → length cs + 2 < fuel
    → AreListed pids cs
    → (after : Process) × (reap_children fuel (map (λ pid. (pid, none)) pids) s ≡ done true after)
      × Reaped after pids cs s
      × IsThreads after (erase_all pids cs)
unfolding reap_children
reap_children_lem fuel [] cs s g lt listed = (s, refl, over, g)
reap_children_lem fuel (pid ∷ pids) cs s g lt ((t, hit), more) =
    let static : Cells = (manager_thread, g.manager_pid) ∷ (main_thread, g.main_pid) ∷ [] in
    let (self, here, pid_is) = find_pid-Points s.memory pid t g.chain hit in
    let found =
      threadlist_findbypid-done fuel pid cs s g (omega (arith, lt, length-append cs static)) in
    let (mid, runs, r) =
      thread_dealloc-Released fuel t self cs s g (omega (arith, lt)) here
        (ap (λ q. find_pid q cs) pid_is ∙ hit) in
    let threads = subst (λ q. IsThreads mid (erase_pid q cs)) pid_is r.threads in
    let (after, runs', released, g') =
      reap_children_lem fuel pids (erase_pid pid cs) mid threads
        (omega (arith, lt, length-erase_pid pid cs)) more in
    (
      after,
      rw (found, find_pid-append pid cs static t hit, runs) runs',
      reaped t self mid hit here pid_is r released,
      g',
    )

-- A child that is no thread of the list ends the manager in abort.
pub reap_children_aborted :
    (fuel : ℕ) (pid : ℤ) (status : Option ℕ) (more : List (ℤ × Option ℕ)) (cs : Cells) (s : Process)
    → (g : IsThreads s cs) → length cs + 2 < fuel
    → find_pid pid (everyone cs g) ≡ none
    → reap_children fuel ((pid, status) ∷ more) s ≡ aborted s
unfolding reap_children
reap_children_aborted fuel pid status more cs s g lt miss =
    let static : Cells = (manager_thread, g.manager_pid) ∷ (main_thread, g.main_pid) ∷ [] in
    rw
      (threadlist_findbypid-done fuel pid cs s g (omega (arith, lt, length-append cs static)), miss)
      refl
