-- ===== src/Manager/Threads/Chain.antt =====
-- What the next pointers of hw3/personal/SThread/sthread.c stand for: a sequence of threads.
use cs.Base.{
  ℕ, ◌≡◌, refl, ◌∙◌, Bool, true, false, Option, none, some, List, [], ◌∷◌, ◌||◌, ◌==◌,
  if◌then◌else◌, arith,
}
use cs.Base.Int.{ℤ, eq_ℤ}
use cs.Base.Family.{update}
use cs.Manager.Run.{Thread}

-- The address and the pid of each thread, in order.
abbrev pub Cells : Type 0
Cells = List (ℕ × ℤ)

abbrev pub has : ℕ → Cells → Bool
has a [] = false
has a ((b, _) ∷ cs) = (b == a) || has a cs

abbrev pub Memory : Type 0
Memory = ℕ → Option Thread

-- At `a` stands a thread with a pid and a next pointer.
pub record Points (m : Memory) (a : ℕ) (pid : ℤ) (next : Option ℕ) : Type 0 where
  pub thread : Thread
  pub there : m a ≡ some thread
  pub pid_is : thread.pid ≡ pid
  pub next_is : thread.next ≡ next

-- From `p` the next pointers lead through the cells, at distinct addresses, to `stop`.
pub data Seg (m : Memory) (stop : Option ℕ) : Option ℕ → Cells → Type 0 where
  nil : {p : Option ℕ} → p ≡ stop → Seg m stop p []
  cons :
      {p : Option ℕ} (a : ℕ) {pid : ℤ} (next : Option ℕ) {cs : Cells}
      → p ≡ some a
      → Points m a pid next
      → has a cs ≡ false
      → Seg m stop next cs
      → Seg m stop p ((a, pid) ∷ cs)

-- A thread keeps all but its next pointer.
pub record Relinked (m m' : Memory) (a : ℕ) : Type 0 where
  pub unused : m a ≡ none → m' a ≡ none
  pub used :
      (t : Thread) → m a ≡ some t → (next : Option ℕ) × (m' a ≡ some (record t { next = next }))

pub Points-same :
    {m m' : Memory} {a : ℕ} {pid : ℤ} {next : Option ℕ}
    → m' a ≡ m a
    → Points m a pid next
    → Points m' a pid next
Points-same same e = record {
  thread = e.thread;
  there = same ∙ e.there;
  pid_is = e.pid_is;
  next_is = e.next_is;
}

-- A chain does not depend on the memory elsewhere.
pub Seg-frame :
    {m m' : Memory} {stop p : Option ℕ} {cs : Cells}
    → Seg m stop p cs
    → ((a : ℕ) → has a cs ≡ true → m' a ≡ m a)
    → Seg m' stop p cs
Seg-frame (nil e) same = nil e
Seg-frame (cons a next e at out s) same =
    cons a next e (Points-same (same a (ground arith)) at) out
      (Seg-frame s λ b i. same b (ground arith))

-- A write at an address outside leaves a chain as it is.
pub Seg-update :
    {m : Memory} {stop p : Option ℕ} {cs : Cells} (a : ℕ) (c : Option Thread)
    → Seg m stop p cs
    → has a cs ≡ false
    → Seg (update m a c) stop p cs
Seg-update a c s out = Seg-frame s λ b i. ground arith

-- The first thread with a pid, and the threads without it.
unfoldable pub find_pid : ℤ → Cells → Option ℕ
find_pid pid [] = none
find_pid pid ((a, q) ∷ cs) = let further = find_pid pid cs in if eq_ℤ q pid then some a else further

unfoldable pub erase_pid : ℤ → Cells → Cells
erase_pid pid [] = []
erase_pid pid ((a, q) ∷ cs) =
    let rest = erase_pid pid cs in if eq_ℤ q pid then cs else (a, q) ∷ rest

pub has-erase_pid :
    (a : ℕ) (pid : ℤ) (cs : Cells) → has a cs ≡ false → has a (erase_pid pid cs) ≡ false
unfolding erase_pid
has-erase_pid a pid [] h = refl
has-erase_pid a pid ((b, q) ∷ cs) h = ground (arith, has-erase_pid a pid cs)
