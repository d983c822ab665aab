-- ===== src/Sync/Threads/Invariant.antt =====
-- What holds of a mutex's line at every moment, and that each move of a thread keeps it.
use cs.Base.{
  ℕ, suc, ◌+◌, ◌-◌, ◌≤◌, ◌<◌, ◌≡◌, ◌≢◌, inl, inr, refl, false, some, List, [], ◌∷◌, ◌++◌, arith,
  dec_lt, All, All-append, length, length-append,
}
use cs.Base.Family.{update, total, total-update}
use cs.Sync.Queue.{QMember}
use cs.Sync.Mutex.Refine.{first_thread}
use cs.Sync.Threads.{Pc, outside, inside, suspended, deliver}
use cs.Sync.Threads.Line.{
  occurs, Distinct, is_queued, weight, Sleeps, InLine, occurs-snoc, Distinct-snoc, Sleeps-update,
  Sleeps-update_wakes, Sleeps-occurs,
}

pub record LineInv (n : ℕ) (l : List QMember) (pc : ℕ → Pc) (wakes : ℕ → ℕ) : Type 0 where
  pub counted : length l ≡ total weight n pc
  pub distinct : Distinct l
  pub present : (i : ℕ) → occurs i l ≡ is_queued (pc i)
  pub bounded : (i : ℕ) → n ≤ i → pc i ≡ outside
  pub idle : (i : ℕ) → pc i ≡ outside → wakes i ≡ 0
  pub line : InLine pc wakes l

abbrev asked : ℕ → QMember
asked i = record { thread = i; count = 1 }

module _ {n : ℕ} {pc : ℕ → Pc} {wakes : ℕ → ℕ} (i : ℕ) (lt : i < n) where
  pub enter_empty : LineInv n [] pc wakes → LineInv n (asked i ∷ []) (update pc i inside) wakes
  enter_empty inv = record {
    counted = ground (arith, total-update weight n pc i inside lt, inv.present i, inv.counted);
    distinct = (refl, tt);
    present = λ j. ground (arith, inv.present j);
    bounded = λ j h. ground (arith, inv.bounded j h);
    idle = λ j h. ground (arith, inv.idle j);
    line = (inl (ground arith, inv.idle i (ground (arith, inv.present i))), omega arith, tt);
  }

  -- A thread that is awake and not the owner is outside.
  pub awake-outside :
      (m : QMember) (rest : List QMember)
      → LineInv n (m ∷ rest) pc wakes
      → m.thread ≢ i
      → pc i ≢ suspended
      → pc i ≡ outside
  awake-outside m rest inv other awake =
      ground (arith, inv.present i, Sleeps-occurs rest pc wakes i, inv.line.2)

  pub queue_up :
      (m : QMember) (rest : List QMember)
      → LineInv n (m ∷ rest) pc wakes
      → m.thread ≢ i
      → pc i ≢ suspended
      → LineInv n ((m ∷ rest) ++ (asked i ∷ [])) (update pc i suspended) wakes
  queue_up m rest inv other awake = record {
    counted = ground (
      arith,
      total-update weight n pc i suspended lt,
      inv.counted,
      out,
      length-append (m ∷ rest) (asked i ∷ []),
    );
    distinct = Distinct-snoc (m ∷ rest) (asked i) inv.distinct absent;
    present = λ j. ground (arith, occurs-snoc j (m ∷ rest) (asked i), inv.present j);
    bounded = λ j h. ground (arith, inv.bounded j h);
    idle = λ j h. ground (arith, inv.idle j);
    line = (
      ground (arith, inv.line.0),
      inv.line.1,
      All-append (Sleeps (update pc i suspended) wakes) rest (asked i ∷ [])
          (Sleeps-update rest pc wakes i suspended (ground (arith, absent)) inv.line.2)
          ((ground arith, inv.idle i out, refl), tt),
    );
  }
    where
      out : pc i ≡ outside
      out = awake-outside m rest inv other awake

      absent : occurs i (m ∷ rest) ≡ false
      absent = ground (arith, inv.present i, out)

  pub relock :
      (m : QMember) (rest : List QMember)
      → LineInv n (m ∷ rest) pc wakes
      → m.thread ≡ i
      → pc i ≢ suspended
      → LineInv n (record m { count = m.count + 1 } ∷ rest) (update pc i inside) wakes
  relock m rest inv own awake = record {
    counted = ground (arith, total-update weight n pc i inside lt, inv.counted, inv.present i);
    distinct = inv.distinct;
    present = λ j. ground (arith, inv.present j);
    bounded = λ j h. ground (arith, inv.bounded j h);
    idle = λ j h. ground (arith, inv.idle j);
    line = (
      inl (ground (arith, inv.line.0)),
      omega arith,
      Sleeps-update rest pc wakes i inside (ground (arith, inv.distinct)) inv.line.2,
    );
  }

-- The thread in the critical section is the first of the line.
pub inside-first :
    {n : ℕ} {pc : ℕ → Pc} {wakes : ℕ → ℕ} (l : List QMember) (i : ℕ)
    → LineInv n l pc wakes
    → pc i ≡ inside
    → first_thread l ≡ some i
inside-first [] i inv e = ground (arith, inv.present i)
inside-first {pc = pc} {wakes = wakes} (m ∷ rest) i inv e =
    ground (arith, inv.present i, Sleeps-occurs rest pc wakes i, inv.line.2)

module _ {n : ℕ} {pc : ℕ → Pc} {wakes : ℕ → ℕ} (i : ℕ) (m : QMember) (rest : List QMember)
    (inv : LineInv n (m ∷ rest) pc wakes) where
  -- A message is only ever for the first of the line.
  woken-first : pc i ≡ suspended → wakes i ≢ 0 → m.thread ≡ i
  woken-first e some_message =
      ground (arith, inv.present i, Sleeps-occurs rest pc wakes i, inv.line.2)

  below : pc i ≢ outside → i < n
  below e = ground (arith, dec_lt i n, inv.bounded i)

  pub wake_up :
      (k : ℕ)
      → pc i ≡ suspended
      → wakes i ≡ suc k
      → LineInv n (m ∷ rest) (update pc i inside) (update wakes i k)
  wake_up k e w = record {
    counted = ground (arith, total-update weight n pc i inside (below (ground arith)), inv.counted);
    distinct = inv.distinct;
    present = λ j. ground (arith, inv.present j);
    bounded = λ j h. ground (arith, inv.bounded j h, below (ground arith));
    idle = λ j h. ground (arith, inv.idle j);
    line = (
      inl (ground (arith, inv.line.0, woken-first e (ground arith))),
      inv.line.1,
      Sleeps-update_wakes rest (update pc i inside) wakes i k absent
          (Sleeps-update rest pc wakes i inside absent inv.line.2),
    );
  }
    where
      absent : occurs i rest ≡ false
      absent = ground (arith, inv.distinct, woken-first e (ground arith))

  pub unlock_inner :
      m.thread ≡ i
      → pc i ≡ inside
      → 1 < m.count
      → LineInv n (record m { count = m.count - 1 } ∷ rest) (update pc i inside) wakes
  unlock_inner own e again = record {
    counted = ground (arith, total-update weight n pc i inside (below (ground arith)), inv.counted);
    distinct = inv.distinct;
    present = λ j. ground (arith, inv.present j);
    bounded = λ j h. ground (arith, inv.bounded j h, below (ground arith));
    idle = λ j h. ground (arith, inv.idle j);
    line = (
      inl (ground (arith, inv.line.0)),
      omega arith,
      Sleeps-update rest pc wakes i inside (ground (arith, inv.distinct)) inv.line.2,
    );
  }

-- What the owner leaves: the next thread leads, with one message.
InLine-next :
    (pc : ℕ → Pc) (wakes : ℕ → ℕ) (i : ℕ) (rest : List QMember)
    → occurs i rest ≡ false
    → Distinct rest
    → All (Sleeps pc wakes) rest
    → InLine (update pc i outside) (deliver (first_thread rest) wakes) rest
InLine-next pc wakes i [] o d h = tt
InLine-next pc wakes i (x ∷ rest) o d h = (
  inr (ground arith),
  ground arith,
  Sleeps-update_wakes rest (update pc i outside) wakes x.thread _ d.0
      (Sleeps-update rest pc wakes i outside (ground arith) h.1),
)

idle-next :
    (wakes : ℕ → ℕ) (rest : List QMember) (j : ℕ)
    → occurs j rest ≡ false
    → wakes j ≡ 0
    → deliver (first_thread rest) wakes j ≡ 0
idle-next wakes [] j o w = w
idle-next wakes (x ∷ rest) j o w = ground arith

pub unlock_last :
    {n : ℕ} {pc : ℕ → Pc} {wakes : ℕ → ℕ} (i : ℕ) (m : QMember) (rest : List QMember)
    → LineInv n (m ∷ rest) pc wakes
    → m.thread ≡ i
    → pc i ≡ inside
    → LineInv n rest (update pc i outside) (deliver (first_thread rest) wakes)
unlock_last {n} {pc} {wakes} i m rest inv own e = record {
  counted =
      ground (
        arith,
        total-update weight n pc i outside (below i m rest inv (ground arith)),
        inv.counted,
      );
  distinct = inv.distinct.1;
  present = λ j. ground (arith, inv.present j, inv.distinct.0);
  bounded = λ j h. ground (arith, inv.bounded j h);
  idle = λ j h.
      idle-next wakes rest j (ground (arith, inv.present j, inv.distinct.0))
        (ground (arith, inv.idle j, inv.line.0));
  line = InLine-next pc wakes i rest (ground (arith, inv.distinct)) inv.distinct.1 inv.line.2;
}
