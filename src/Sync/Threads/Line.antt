-- ===== src/Sync/Threads/Line.antt =====
-- The line of threads in a mutex's queue: who stands in it, once each, and who in it is awake.
use cs.Base.{
  ℕ, ◌≤◌, ◌<◌, ◌≡◌, ◌⊎◌, refl, Bool, true, false, List, [], ◌∷◌, ◌++◌, ◌==◌, if◌then◌else◌, arith,
  All,
}
use cs.Base.Family.{update, total, total-update, total_bounded}
use cs.Sync.Queue.{QMember}
use cs.Sync.Threads.{Pc, outside, inside, suspended}

abbrev pub occurs : ℕ → List QMember → Bool
occurs i [] = false
occurs i (m ∷ l) = if m.thread == i then true else occurs i l

abbrev pub Distinct : List QMember → Type 0
Distinct [] = Unit
Distinct (m ∷ l) = (occurs m.thread l ≡ false) × Distinct l

abbrev pub is_queued : Pc → Bool
is_queued outside = false
is_queued _ = true

abbrev pub weight : Pc → ℕ
weight outside = 0
weight _ = 1

-- A thread that waits behind another sleeps, has no message, and has asked once.
abbrev pub Sleeps : (ℕ → Pc) → (ℕ → ℕ) → QMember → Type 0
Sleeps pc wakes m = (pc m.thread ≡ suspended) × (wakes m.thread ≡ 0) × (m.count ≡ 1)

-- The first thread is in the critical section, or asleep with the one message that wakes it.
abbrev pub Leads : (ℕ → Pc) → (ℕ → ℕ) → QMember → Type 0
Leads pc wakes m =
    ((pc m.thread ≡ inside) × (wakes m.thread ≡ 0))
    ⊎ ((pc m.thread ≡ suspended) × (wakes m.thread ≡ 1) × (m.count ≡ 1))

abbrev pub InLine : (ℕ → Pc) → (ℕ → ℕ) → List QMember → Type 0
InLine pc wakes [] = Unit
InLine pc wakes (m ∷ l) = Leads pc wakes m × (1 ≤ m.count) × All (Sleeps pc wakes) l

pub occurs-snoc :
    (i : ℕ) (l : List QMember) (m : QMember)
    → occurs i (l ++ (m ∷ [])) ≡ (if m.thread == i then true else occurs i l)
occurs-snoc i [] m = refl
occurs-snoc i (x ∷ l) m = ground (arith, occurs-snoc i l m)

pub Distinct-snoc :
    (l : List QMember) (m : QMember)
    → Distinct l
    → occurs m.thread l ≡ false
    → Distinct (l ++ (m ∷ []))
Distinct-snoc [] m d o = (refl, tt)
Distinct-snoc (x ∷ l) m d o =
    (ground (arith, occurs-snoc x.thread l m, d.0), Distinct-snoc l m d.1 (ground arith))

-- A thread that is not in the line may move, and its messages change, and the line sleeps on.
pub Sleeps-update :
    (l : List QMember) (pc : ℕ → Pc) (wakes : ℕ → ℕ) (i : ℕ) (p : Pc)
    → occurs i l ≡ false
    → All (Sleeps pc wakes) l
    → All (Sleeps (update pc i p) wakes) l
Sleeps-update [] pc wakes i p o h = tt
Sleeps-update (m ∷ l) pc wakes i p o h =
    (ground arith, Sleeps-update l pc wakes i p (ground arith) h.1)

pub Sleeps-update_wakes :
    (l : List QMember) (pc : ℕ → Pc) (wakes : ℕ → ℕ) (i k : ℕ)
    → occurs i l ≡ false
    → All (Sleeps pc wakes) l
    → All (Sleeps pc (update wakes i k)) l
Sleeps-update_wakes [] pc wakes i k o h = tt
Sleeps-update_wakes (m ∷ l) pc wakes i k o h =
    (ground arith, Sleeps-update_wakes l pc wakes i k (ground arith) h.1)

-- Who occurs in a sleeping line is asleep, without a message.
pub Sleeps-occurs :
    (l : List QMember) (pc : ℕ → Pc) (wakes : ℕ → ℕ) (i : ℕ)
    → occurs i l ≡ true
    → All (Sleeps pc wakes) l
    → (pc i ≡ suspended) × (wakes i ≡ 0)
Sleeps-occurs [] pc wakes i o h = cc
Sleeps-occurs (m ∷ l) pc wakes i o h = ground (arith, Sleeps-occurs l pc wakes i)

weight-le : (p : Pc) → weight p ≤ 1
weight-le p = ground arith

-- With one of `n` threads outside, fewer than `n` are queued.
pub total-lt : (n : ℕ) (pc : ℕ → Pc) (i : ℕ) → i < n → pc i ≡ outside → total weight n pc < n
total-lt n pc i lt e = ground (
  arith,
  total-update weight n pc i inside,
  total_bounded weight n (update pc i inside) weight-le,
)
