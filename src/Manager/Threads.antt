-- ===== src/Manager/Threads.antt =====
-- The thread list of hw3/personal/SThread/sthread.c. A loop over the list has fuel for its rounds.
pub mod Chain
pub mod Delete
pub mod State
pub mod Find
use cs.Base.{ℕ, zero, suc, Bool, Option, none, some, ◌==◌, if◌then◌else◌}
use cs.Base.Int.{ℤ, eq_ℤ}
use cs.Manager.Run.{
  Thread, Process, Cmd, aborted, fault, out_of_fuel, done, pure, ◌>>=◌, ◌>>◌, manager_thread, load,
  modify,
}

unfoldable pub find_loop : ℕ → ℤ → Option ℕ → Cmd (Option ℕ)
unfolding load
find_loop zero pid p = λ _. out_of_fuel
find_loop (suc n) pid none = pure none
find_loop (suc n) pid (some p) = do
  e ← load p
  (if eq_ℤ e.pid pid then pure (some p) else find_loop n pid e.next)

unfoldable pub threadlist_findbypid : ℕ → ℤ → Cmd (Option ℕ)
unfolding find_loop
threadlist_findbypid fuel pid s = find_loop fuel pid s.list_hd s

abbrev pub set_list_hd : Option ℕ → Cmd (Unit {0})
set_list_hd p s = done tt (record s { list_hd = p })

unfoldable pub threadlist_add : ℕ → Cmd (Unit {0})
unfolding modify
threadlist_add t s = (do modify t (λ e. record e { next = s.list_hd }); set_list_hd (some t)) s

-- `if (prev) prev->next = p->next; else list_hd = p->next;`
unfoldable pub set_link : Option ℕ → Option ℕ → Cmd (Unit {0})
unfolding modify
set_link none next = set_list_hd next
set_link (some b) next = modify b (λ e. record e { next = next })

-- The loop of threadlist_del from `p`, and what follows it. It ends in abort at the manager.
unfoldable pub del_loop : ℕ → ℕ → Option ℕ → Option ℕ → Cmd (Unit {0})
unfolding load set_link
del_loop zero t prev p = λ _. out_of_fuel
del_loop (suc n) t prev none = λ _. fault
del_loop (suc n) t prev (some p) = if p == manager_thread then aborted else (do
  e ← load p
  self ← load t
  (if eq_ℤ e.pid self.pid then set_link prev e.next else del_loop n t (some p) e.next))

unfoldable pub threadlist_del : ℕ → ℕ → Cmd (Unit {0})
unfolding del_loop
threadlist_del fuel t s = del_loop fuel t none s.list_hd s
