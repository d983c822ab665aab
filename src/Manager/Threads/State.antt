-- ===== src/Manager/Threads/State.antt =====
-- The states of the thread list of hw3/personal/SThread/sthread.c between two commands: the threads that
-- were created, newest first, then the manager and the main thread.
use cs.Base.{
  ℕ, ◌<◌, ◌≡◌, refl, sym, subst, true, false, Option, none, some, [], ◌∷◌, arith, length,
  Bool-cases, inl, inr,
}
use cs.Base.Int.{ℤ, eq_ℤ}
use cs.Manager.Run.{Thread, Process, done, manager_thread, main_thread}
use cs.Manager.Threads.{threadlist_del}
use cs.Manager.Threads.Chain.{
  Memory, Cells, has, Relinked, Points, Points-same, Seg, nil, cons, find_pid, erase_pid,
  has-erase_pid,
}
use cs.Manager.Threads.Delete.{Linked, first, behind, del_loop-Deleted}

-- No two threads have one pid.
abbrev pub Distinct : Cells → Type 0
Distinct [] = Unit
Distinct ((a, q) ∷ cs) = (find_pid q cs ≡ none) × Distinct cs

pub record IsThreads (s : Process) (cs : Cells) : Type 0 where
  pub chain : Seg s.memory (some manager_thread) s.list_hd cs
  pub no_manager : has manager_thread cs ≡ false
  pub no_main : has main_thread cs ≡ false
  pub distinct : Distinct cs
  pub manager_pid : ℤ
  pub main_pid : ℤ
  pub manager : Points s.memory manager_thread manager_pid (some main_thread)
  pub main : Points s.memory main_thread main_pid none

pub find_pid-has : (pid : ℤ) (cs : Cells) (t : ℕ) → find_pid pid cs ≡ some t → has t cs ≡ true
unfolding find_pid
find_pid-has pid [] t e = cc
find_pid-has pid ((a, q) ∷ cs) t e = ground (arith, find_pid-has pid cs t)

find_pid-erase_pid :
    (q pid : ℤ) (cs : Cells) → find_pid q cs ≡ none → find_pid q (erase_pid pid cs) ≡ none
unfolding find_pid erase_pid
find_pid-erase_pid q pid [] e = refl
find_pid-erase_pid q pid ((a, r) ∷ cs) e = ground (arith, find_pid-erase_pid q pid cs)

Distinct-erase_pid : (pid : ℤ) (cs : Cells) → Distinct cs → Distinct (erase_pid pid cs)
unfolding erase_pid
Distinct-erase_pid pid [] d = tt
Distinct-erase_pid pid ((a, q) ∷ cs) d = elim (Bool-cases (eq_ℤ q pid)) [
  | inl e ↦ rw e d.1
  | inr e ↦ rw e (find_pid-erase_pid q pid cs d.0, Distinct-erase_pid pid cs d.1)
]

-- The thread that is found by its pid is gone when it is erased.
pub erased_gone :
    {m : Memory} {stop p : Option ℕ} {cs : Cells} (pid : ℤ) (t : ℕ)
    → Seg m stop p cs
    → find_pid pid cs ≡ some t
    → has t (erase_pid pid cs) ≡ false
unfolding find_pid erase_pid
erased_gone pid t (nil e) hit = cc
erased_gone pid t (cons a {pid = q} next {cs} e points alone chain) hit =
    elim (Bool-cases (eq_ℤ q pid)) [
      | inl same ↦ rw same (ground (arith, hit))
      | inr other ↦
          rw other (ground (arith, erased_gone pid t chain, find_pid-has pid cs t, hit, alone))
    ]

-- What threadlist_del does for a thread of the list.
pub record Removed (t : ℕ) (self : Thread) (cs : Cells) (s after : Process) : Type 0 where
  pub threads : IsThreads after (erase_pid self.pid cs)
  pub next : Option ℕ
  pub there : after.memory t ≡ some (record self { next = next })
  pub gone : has t (erase_pid self.pid cs) ≡ false
  pub calls : after.calls ≡ s.calls
  pub others : (a : ℕ) → has a cs ≡ false → after.memory a ≡ s.memory a
  pub relinked : (a : ℕ) → Relinked s.memory after.memory a

Deleted-chain :
    (cs : Cells) (pid : ℤ) {after : Process} {head : Option ℕ}
    → Linked after head none
    → Seg after.memory (some manager_thread) head (erase_pid pid cs)
    → Seg after.memory (some manager_thread) after.list_hd (erase_pid pid cs)
Deleted-chain cs pid {after = after} (first e hd) chain =
    subst (λ p. Seg after.memory (some manager_thread) p (erase_pid pid cs)) (sym hd) chain
Deleted-chain cs pid (behind b t e there points) chain = absurd cc

pub threadlist_del-Removed :
    (fuel t : ℕ) (self : Thread) (cs : Cells) (s : Process)
    → IsThreads s cs
    → length cs < fuel
    → s.memory t ≡ some self
    → find_pid self.pid cs ≡ some t
    → (after : Process) × (threadlist_del fuel t s ≡ done tt after) × Removed t self cs s after
unfolding threadlist_del
threadlist_del-Removed fuel t self cs s g lt here hit =
    let d =
      del_loop-Deleted fuel t self none s.list_hd s t here g.chain g.no_manager lt (first refl refl)
        (λ b e. cc) hit in
    let (next, there) = (d.relinked t).used self here in
    (
      d.after,
      d.runs,
      record {
        threads = record {
          chain = Deleted-chain cs self.pid d.linked d.chain;
          no_manager = has-erase_pid manager_thread self.pid cs g.no_manager;
          no_main = has-erase_pid main_thread self.pid cs g.no_main;
          distinct = Distinct-erase_pid self.pid cs g.distinct;
          manager_pid = g.manager_pid;
          main_pid = g.main_pid;
          manager = Points-same (d.others manager_thread g.no_manager (λ e. cc)) g.manager;
          main = Points-same (d.others main_thread g.no_main (λ e. cc)) g.main;
        };
        next = next;
        there = there;
        gone = erased_gone self.pid t g.chain hit;
        calls = d.calls;
        others = λ a h. d.others a h (λ e. cc);
        relinked = d.relinked;
      },
    )
