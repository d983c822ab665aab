-- ===== src/Prinfo/Call.antt =====
-- What sys_cs2456_test of hw2/group/cs2456/cs2456_test.c returns as a whole.
use cs.Base.{
  ℕ, suc, ◌<◌, ◌≡◌, refl, sym, ap, subst, ◌∙◌, false, Option, none, some, List, [], ◌∷◌, ◌++◌, ◌==◌,
  All, length,
}
use cs.Base.Outcome.{ok, fault}
use cs.Prinfo.{
  Info, Child, Task, wrap, copy_comm, scan_children, scan_siblings, settled, cs2456_test,
}
use cs.Prinfo.Search.{Siblings, right, stuck, scan_siblings_lem}
use cs.Prinfo.Family.{drop, copy_comm_lem, sum_of, pids_of, IsSmallest, scan_children_lem}

-- The youngest child and the times of the children.
pub data OfChildren (junk : ℕ) (cs : List Child) (r : Info) : Type 0 where
  childless :
      cs ≡ [] → r.youngest_child_pid ≡ junk → r.cutime ≡ 0 → r.cstime ≡ 0 → OfChildren junk cs r
  parent :
      IsSmallest (pids_of cs) r.youngest_child_pid
      → r.cutime ≡ wrap (sum_of (λ c. c.utime) cs)
      → r.cstime ≡ wrap (sum_of (λ c. c.stime) cs)
      → OfChildren junk cs r

-- What the call writes for a task that visits the pid `p` first and then `ps`.
pub record IsAnswer (junk : ℕ) (info : Info) (t : Task) (name : List ℕ) (p : ℕ) (ps : List ℕ)
    (r : Info) : Type 0 where
  pub asked : r.pid ≡ info.pid
  pub copied :
      (r.state ≡ t.state)
      × (r.nice ≡ t.nice)
      × (r.parent_pid ≡ t.parent_pid)
      × (r.start_time ≡ t.real_start_time)
      × (r.user_time ≡ t.utime)
      × (r.sys_time ≡ t.stime)
      × (r.uid ≡ t.uid)
  pub children : OfChildren junk t.children r
  pub siblings : Siblings t.pid p ps (some r.younger_sibling_pid, r.older_sibling_pid)
  pub named : r.comm ≡ name ++ 0 ∷ drop (suc (length name)) info.comm

answer : ℕ → Info → Task → Option ℕ × ℕ × ℕ → Option ℕ × ℕ → List ℕ → Info
answer junk info t c s comm = record {
  state = t.state;
  nice = t.nice;
  pid = info.pid;
  parent_pid = t.parent_pid;
  youngest_child_pid = settled junk c.0;
  younger_sibling_pid = settled junk s.0;
  older_sibling_pid = s.1;
  start_time = t.real_start_time;
  user_time = t.utime;
  sys_time = t.stime;
  cutime = c.1;
  cstime = c.2;
  uid = t.uid;
  comm = comm;
}

cs2456_test-answer :
    (junk : ℕ) (find_task_by_pid : ℕ → Option Task) (info : Info) (t : Task) (comm : List ℕ)
    → find_task_by_pid info.pid ≡ some t
    → copy_comm t.comm info.comm ≡ ok comm
    → cs2456_test junk find_task_by_pid (some info)
      ≡ ok (
          some (
            answer junk info t
              (scan_children none 0 0 t.children)
              (scan_siblings t.pid none 0 t.visited)
              comm))
unfolding cs2456_test answer
cs2456_test-answer junk find_task_by_pid info t comm found copied = rw (found, copied) refl

of_children :
    (junk : ℕ) (info : Info) (t : Task) (s : Option ℕ × ℕ) (comm : List ℕ) (cs : List Child)
    → OfChildren junk cs (answer junk info t (scan_children none 0 0 cs) s comm)
unfolding answer scan_children
of_children junk info t s comm [] = childless refl refl refl refl
of_children junk info t s comm (c ∷ cs) =
    let (v, run, smallest) = scan_children_lem c cs in
    subst (λ o. OfChildren junk (c ∷ cs) (answer junk info t o s comm)) (sym run)
      (parent smallest refl refl)

settled_again :
    (junk my_pid p : ℕ) (ps : List ℕ) (s : Option ℕ × ℕ)
    → Siblings my_pid p ps s
    → Siblings my_pid p ps (some (settled junk s.0), s.1)
settled_again junk my_pid p ps s (right lt v o e above below) =
    right lt v o (ap (λ s'. (some (settled junk s'.0), s'.1)) e) above below
settled_again junk my_pid p ps s (stuck le o e below) =
    stuck le o (ap (λ s'. (some (settled junk s'.0), s'.1)) e) below

-- For a task that exists, whose name ends within both arrays and whose ring of siblings has a member,
-- the call answers. The name is copied with its 0. The youngest child is the one with the smallest pid
-- and the times are the sums over the children modulo 2^32; without children the times are 0 and the
-- pid is what the variable held. The older sibling is the largest visited pid below the own one, or 0;
-- the younger sibling is the smallest above if the first visited pid is above, else the first visited
-- pid.
pub cs2456_test_lem :
    (junk : ℕ) (find_task_by_pid : ℕ → Option Task) (info : Info) (t : Task) (name rest : List ℕ)
    (p : ℕ) (ps : List ℕ)
    → find_task_by_pid info.pid ≡ some t
    → t.comm ≡ name ++ 0 ∷ rest
    → All (λ c. (c == 0) ≡ false) name
    → length name < length info.comm
    → t.visited ≡ p ∷ ps
    → (r : Info) × (cs2456_test junk find_task_by_pid (some info) ≡ ok (some r))
      × IsAnswer junk info t name p ps r
unfolding answer
cs2456_test_lem junk find_task_by_pid info t name rest p ps found named ends fits ring =
    let comm = name ++ 0 ∷ drop (suc (length name)) info.comm in
    let copied : copy_comm t.comm info.comm ≡ ok comm =
      ap (λ n. copy_comm n info.comm) named ∙ copy_comm_lem name rest info.comm ends fits in
    let c = scan_children none 0 0 t.children in
    let s = scan_siblings t.pid none 0 t.visited in
    let around : Siblings t.pid p ps s =
      subst (λ l. Siblings t.pid p ps (scan_siblings t.pid none 0 l)) (sym ring)
        (scan_siblings_lem t.pid p ps) in
    (
      answer junk info t c s comm,
      cs2456_test-answer junk find_task_by_pid info t comm found copied,
      record {
        asked = refl;
        copied = (refl, refl, refl, refl, refl, refl, refl);
        children = of_children junk info t s comm t.children;
        siblings = settled_again junk t.pid p ps s around;
        named = refl;
      },
    )

-- A pid that no task has faults: the code does not look at the NULL that find_task_by_pid returns.
pub cs2456_test_fault :
    (junk : ℕ) (find_task_by_pid : ℕ → Option Task) (info : Info)
    → find_task_by_pid info.pid ≡ none
    → cs2456_test junk find_task_by_pid (some info) ≡ fault
unfolding cs2456_test
cs2456_test_fault junk find_task_by_pid info missing = rw missing refl
