-- ===== src/Manager/Threads/Find.antt =====
-- threadlist_findbypid and the failing case of threadlist_del of hw3/personal/SThread/sthread.c.
use cs.Base.{
  ℕ, zero, suc, ◌<◌, ◌≡◌, refl, sym, subst, true, false, Option, none, some, [], ◌∷◌, ◌++◌, ◌==◌,
  arith, length, Bool-cases, inl, inr,
}
use cs.Base.Int.{ℤ, eq_ℤ}
use cs.Manager.Run.{Thread, Process, done, aborted, manager_thread, main_thread, load-done}
use cs.Manager.Threads.{find_loop, threadlist_findbypid, del_loop}
use cs.Manager.Threads.Chain.{Memory, Cells, has, Seg, nil, cons, find_pid}
use cs.Manager.Threads.State.{IsThreads}

-- The whole list: the threads, the manager and the main thread.
abbrev pub everyone : {s : Process} (cs : Cells) → IsThreads s cs → Cells
everyone cs g = cs ++ (manager_thread, g.manager_pid) ∷ (main_thread, g.main_pid) ∷ []

has-append :
    (a : ℕ) (cs ds : Cells) → has a cs ≡ false → has a ds ≡ false → has a (cs ++ ds) ≡ false
has-append a [] ds h h' = h'
has-append a ((b, q) ∷ cs) ds h h' = ground (arith, h, has-append a cs ds)

Seg-append :
    {m : Memory} {stop mid p : Option ℕ} {cs : Cells} (ds : Cells)
    → Seg m mid p cs
    → Seg m stop mid ds
    → ((a : ℕ) → has a cs ≡ true → has a ds ≡ false)
    → Seg m stop p (cs ++ ds)
Seg-append {m} {stop} ds (nil e) rest apart = subst (λ q. Seg m stop q ds) (sym e) rest
Seg-append ds (cons a next {cs} e points alone chain) rest apart =
    cons a next e points (has-append a cs ds alone (apart a (ground arith)))
      (Seg-append ds chain rest λ b i. apart b (ground arith))

pub everyone-Seg :
    {s : Process} (cs : Cells) (g : IsThreads s cs) → Seg s.memory none s.list_hd (everyone cs g)
everyone-Seg cs g =
    Seg-append _ g.chain
      (cons manager_thread (some main_thread) refl g.manager refl
        (cons main_thread none refl g.main refl (nil refl)))
      λ a i. ground (arith, i, g.no_manager, g.no_main)

find_loop-done :
    (n : ℕ) (pid : ℤ) {p : Option ℕ} {cs : Cells} (s : Process)
    → Seg s.memory none p cs
    → length cs < n
    → find_loop n pid p s ≡ done (find_pid pid cs) s
unfolding find_loop find_pid
find_loop-done zero pid s chain lt = absurd (omega arith)
find_loop-done (suc n) pid s (nil e) lt = rw e refl
find_loop-done (suc n) pid s (cons a {pid = q} next e points alone chain) lt =
    rw (e, load-done a s points.there, points.pid_is, points.next_is)
      (elim (Bool-cases (eq_ℤ q pid)) [
        | inl same ↦ rw same refl
        | inr other ↦ rw other (find_loop-done n pid s chain (omega (arith, lt)))
      ])

-- threadlist_findbypid looks through all threads, the manager and the main thread included.
pub threadlist_findbypid-done :
    (fuel : ℕ) (pid : ℤ) (cs : Cells) (s : Process) (g : IsThreads s cs)
    → length (everyone cs g) < fuel
    → threadlist_findbypid fuel pid s ≡ done (find_pid pid (everyone cs g)) s
unfolding threadlist_findbypid
threadlist_findbypid-done fuel pid cs s g lt = find_loop-done fuel pid s (everyone-Seg cs g) lt

-- At a thread whose pid no cell has, threadlist_del ends in abort.
pub del_loop-aborted :
    (n t : ℕ) (self : Thread) (prev p : Option ℕ) {cs : Cells} (s : Process)
    → s.memory t ≡ some self
    → Seg s.memory (some manager_thread) p cs
    → has manager_thread cs ≡ false
    → length cs < n
    → find_pid self.pid cs ≡ none
    → del_loop n t prev p s ≡ aborted s
unfolding del_loop find_pid
del_loop-aborted zero t self prev p s here chain apart lt miss = absurd (omega arith)
del_loop-aborted (suc n) t self prev p s here (nil e) apart lt miss = rw e refl
del_loop-aborted (suc n) t self prev p s here (cons a {pid = q} next {cs} e points alone chain)
      apart lt miss =
    let not_manager : (a == manager_thread) ≡ false = ground (arith, apart) in
    let other : eq_ℤ q self.pid ≡ false = ground (arith, miss) in
    rw
      (
        e,
        not_manager,
        load-done a s points.there,
        load-done t s here,
        points.pid_is,
        points.next_is,
        other,
      )
      (del_loop-aborted n t self (some a) next s here chain (ground (arith, apart))
        (omega (arith, lt)) (ground (arith, miss)))
