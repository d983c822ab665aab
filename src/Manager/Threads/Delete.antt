-- ===== src/Manager/Threads/Delete.antt =====
-- threadlist_del of hw3/personal/SThread/sthread.c as the removal of a thread from the sequence.
use cs.Base.{
  ℕ, zero, suc, ◌<◌, ◌≡◌, ◌≢◌, refl, ◌∙◌, true, false, Option, none, some, ◌∷◌, ◌==◌, arith, length,
  Bool-cases, inl, inr,
}
use cs.Base.Int.{ℤ, eq_ℤ}
use cs.Base.Family.{update}
use cs.Manager.Run.{Thread, Process, Run, done, manager_thread, load-done, modify-done}
use cs.Manager.Threads.{set_link, del_loop}
use cs.Manager.Threads.Chain.{
  Cells, has, Points, Seg, nil, cons, Relinked, Seg-frame, find_pid, erase_pid, has-erase_pid,
}

-- The link before a part of the list: `list_hd`, or the next pointer of a thread.
pub data Linked (s : Process) (p : Option ℕ) : Option ℕ → Type 0 where
  first : {prev : Option ℕ} → prev ≡ none → s.list_hd ≡ p → Linked s p prev
  behind :
      {prev : Option ℕ} (b : ℕ) (t : Thread)
      → prev ≡ some b
      → s.memory b ≡ some t
      → t.next ≡ p
      → Linked s p prev

-- What a write to that link leaves.
pub record Kept (prev : Option ℕ) (s after : Process) : Type 0 where
  pub others : (a : ℕ) → prev ≢ some a → after.memory a ≡ s.memory a
  pub relinked : (a : ℕ) → Relinked s.memory after.memory a
  pub calls : after.calls ≡ s.calls
  pub head : (b : ℕ) → prev ≡ some b → after.list_hd ≡ s.list_hd

record LinkSet (prev next : Option ℕ) (s : Process) (r : Run (Unit {0})) : Type 0 where
  after : Process
  runs : r ≡ done tt after
  linked : Linked after next prev
  kept : Kept prev s after

same-Relinked : {m m' : ℕ → Option Thread} (a : ℕ) → m' a ≡ m a → Relinked m m' a
same-Relinked a same = record { unused = λ e. same ∙ e; used = λ t e. (t.next, same ∙ e) }

Relinked-update :
    (m : ℕ → Option Thread) (b : ℕ) (t : Thread) (next : Option ℕ) (a : ℕ)
    → m b ≡ some t
    → Relinked m (update m b (some (record t { next = next }))) a
Relinked-update m b t next a there = elim (Bool-cases (b == a)) [
  | inl e ↦ record {
    unused = λ none_there. ground (arith, e);
    used = λ u is. (next, ground (arith, e, is));
  }
  | inr e ↦ same-Relinked a (ground (arith, e))
]

set_link_lem :
    (prev p next : Option ℕ) (s : Process)
    → Linked s p prev
    → LinkSet prev next s (set_link prev next s)
unfolding set_link
set_link_lem prev p next s (first e hd) = rw e (record {
  after = record s { list_hd = next };
  runs = refl;
  linked = first refl refl;
  kept = record {
    others = λ a h. refl;
    relinked = λ a. same-Relinked a refl;
    calls = refl;
    head = λ b h. cc;
  };
})
set_link_lem prev p next s (behind b t e there points) = rw e (record {
  after = record s { memory = update s.memory b (some (record t { next = next })) };
  runs = modify-done b (λ e. record e { next = next }) s there;
  linked = behind b (record t { next = next }) refl (ground arith) refl;
  kept = record {
    others = λ a h. ground (arith, h);
    relinked = λ a. Relinked-update s.memory b t next a there;
    calls = refl;
    head = λ c h. refl;
  };
})

-- What threadlist_del leaves when it finds a thread, from a link on.
pub record Deleted (prev : Option ℕ) (cs : Cells) (pid : ℤ) (s : Process) (r : Run (Unit {0}))
    : Type 0 where
  pub after : Process
  pub runs : r ≡ done tt after
  pub head : Option ℕ
  pub linked : Linked after head prev
  pub chain : Seg after.memory (some manager_thread) head (erase_pid pid cs)
  pub others : (a : ℕ) → has a cs ≡ false → prev ≢ some a → after.memory a ≡ s.memory a
  pub relinked : (a : ℕ) → Relinked s.memory after.memory a
  pub calls : after.calls ≡ s.calls
  pub list_head : (b : ℕ) → prev ≡ some b → after.list_hd ≡ s.list_hd

-- The thread is the first one: the link before it is set.
delete-first :
    (prev : Option ℕ) (p next : Option ℕ) (a : ℕ) (q pid : ℤ) (cs : Cells) (s : Process)
    → eq_ℤ q pid ≡ true
    → Linked s p prev
    → ((b : ℕ) → prev ≡ some b → has b cs ≡ false)
    → Seg s.memory (some manager_thread) next cs
    → Deleted prev ((a, q) ∷ cs) pid s (set_link prev next s)
unfolding erase_pid
delete-first prev p next a q pid cs s hit link out chain =
    let l = set_link_lem prev p next s link in
    record {
      after = l.after;
      runs = l.runs;
      head = next;
      linked = l.linked;
      chain = rw hit (Seg-frame chain λ b i. l.kept.others b (λ e. ground (arith, out b e, i)));
      others = λ b h h'. l.kept.others b h';
      relinked = l.kept.relinked;
      calls = l.kept.calls;
      list_head = l.kept.head;
    }

Linked-others :
    {s after : Process} {p prev : Option ℕ}
    → Linked s p prev
    → (prev ≡ none → after.list_hd ≡ s.list_hd)
    → ((b : ℕ) → prev ≡ some b → after.memory b ≡ s.memory b)
    → Linked after p prev
Linked-others (first e hd) same_head same = first e (same_head e ∙ hd)
Linked-others (behind b t e there points) same_head same = behind b t e (same b e ∙ there) points

Points-Relinked :
    {m : ℕ → Option Thread} {after : Process} {a : ℕ} {q : ℤ} {next head : Option ℕ}
    → Points m a q next
    → Relinked m after.memory a
    → Linked after head (some a)
    → Points after.memory a q head
Points-Relinked points same (first e hd) = absurd (ground arith)
Points-Relinked points same (behind b t e there points') =
    let (next', now) = same.used points.thread points.there in
    record {
      thread = t;
      there = ground (arith, e, there);
      pid_is = ground (arith, e, there, now, points.pid_is);
      next_is = points';
    }

-- The thread is further on: the part behind the first thread is what changes.
delete-later :
    (prev p next : Option ℕ) (a : ℕ) (q pid : ℤ) (cs : Cells) (s : Process) (r : Run (Unit {0}))
    → Linked s p prev
    → p ≡ some a
    → ((b : ℕ) → prev ≡ some b → has b ((a, q) ∷ cs) ≡ false)
    → Points s.memory a q next
    → has a cs ≡ false
    → eq_ℤ q pid ≡ false
    → Deleted (some a) cs pid s r
    → Deleted prev ((a, q) ∷ cs) pid s r
unfolding erase_pid
delete-later prev p next a q pid cs s r link e out points apart other d = record {
  after = d.after;
  runs = d.runs;
  head = p;
  linked =
      Linked-others link (λ e'. d.list_head a refl) (λ b e'. ground (arith, d.others b, out b e'));
  chain = rw other (
      cons a d.head e (Points-Relinked points (d.relinked a) d.linked)
        (has-erase_pid a pid cs apart) d.chain);
  others = λ b h h'. d.others b (ground (arith, h)) (ground (arith, h));
  relinked = d.relinked;
  calls = d.calls;
  list_head = λ b h. d.list_head a refl;
}

-- The loop of threadlist_del deletes the first thread with the pid.
pub del_loop-Deleted :
    (n t : ℕ) (self : Thread) (prev p : Option ℕ) {cs : Cells} (s : Process) (found : ℕ)
    → s.memory t ≡ some self
    → Seg s.memory (some manager_thread) p cs
    → has manager_thread cs ≡ false
    → length cs < n
    → Linked s p prev
    → ((b : ℕ) → prev ≡ some b → has b cs ≡ false)
    → find_pid self.pid cs ≡ some found
    → Deleted prev cs self.pid s (del_loop n t prev p s)
unfolding del_loop find_pid
del_loop-Deleted zero t self prev p s found here chain apart lt link out hit = absurd (omega arith)
del_loop-Deleted (suc n) t self prev p s found here (nil e) apart lt link out hit = absurd cc
del_loop-Deleted (suc n) t self prev p s found here
      (cons a {pid = q} next {cs} e points alone chain) apart lt link out hit =
    let not_manager : (a == manager_thread) ≡ false = ground (arith, apart) in
    rw
      (
        e,
        not_manager,
        load-done a s points.there,
        load-done t s here,
        points.pid_is,
        points.next_is,
      )
      (elim (Bool-cases (eq_ℤ q self.pid)) [
        | inl same ↦ rw same (
            delete-first prev p next a q self.pid cs s same link (λ b e'. ground (arith, out b e'))
              chain)
        | inr other ↦ rw other (
            delete-later prev p next a q self.pid cs s (del_loop n t (some a) next s) link e out
              points alone other
              (del_loop-Deleted n t self (some a) next s found here chain (ground (arith, apart))
                (omega (arith, lt)) (behind a points.thread refl points.there points.next_is)
                (λ b e'. ground (arith, alone, e')) (ground (arith, hit, other))))
      ])
