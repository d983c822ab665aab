-- ===== src/Kersync/Calm.antt =====
-- The counts of hw3/group/TURNED_IN_Qiyuan_Qiguang/kersync/kersync.c in executions in which the
-- changes of one event's count do not overlap, and what a call does to them. `count++` stands under
-- the list lock and `count--` under the lock of the event, so the code does not rule an overlap out.
pub mod Tallies
pub mod Always
use cs.Base.{
  ℕ, ◌+◌, ◌≤◌, ◌<◌, ◌≡◌, ◌≢◌, inl, inr, subst, ◌∙◌, Bool, true, false, Option, none, some, ◌==◌,
  if◌then◌else◌, arith, Bool-cases, dec_lt,
}
use cs.Base.Int.{ℤ, pos}
use cs.Base.Family.{update, total, total-update, total-cong, total_weightless}
use cs.Kersync.{Event, Kernel, write_event}
use cs.Kersync.Calls.{
  Pc, idle, counting, waiting, drowsy, asleep, woken, signalling, leaving, closing, System, wake_up,
  allocated, boot, Step, Reach,
}

-- How much a process adds to the count of the event at `a`.
abbrev pub refs : ℕ → Pc → ℕ
refs a idle = 0
refs a (counting x b c) = 0
refs a (waiting b) = if b == a then 1 else 0
refs a (drowsy b) = if b == a then 1 else 0
refs a (asleep b) = if b == a then 1 else 0
refs a (woken b) = if b == a then 1 else 0
refs a (signalling b) = if b == a then 1 else 0
refs a (leaving b c) = if b == a then 1 else 0
refs a (closing b) = 0

-- The process has a pointer to the event at `a`.
abbrev pub uses : ℕ → Pc → Bool
uses a idle = false
uses a (counting x b c) = b == a
uses a (waiting b) = b == a
uses a (drowsy b) = b == a
uses a (asleep b) = b == a
uses a (woken b) = b == a
uses a (signalling b) = b == a
uses a (leaving b c) = b == a
uses a (closing b) = b == a

-- The count of the event at `a` that a process has read and not yet written back.
abbrev pub copy : ℕ → Pc → Option ℤ
copy a (counting x b c) = if b == a then some c else none
copy a (leaving b c) = if b == a then some c else none
copy a _ = none

abbrev pub holds : ℕ → Pc → Bool
holds a (counting x b c) = b == a
holds a (leaving b c) = b == a
holds a _ = false

-- No two processes stand between the read and the write of the count of one event.
abbrev pub Calm : (ℕ → Pc) → Type 0
Calm pc = (i j a : ℕ) → holds a (pc i) ≡ true → holds a (pc j) ≡ true → i ≡ j

-- An execution every step of which starts in a calm state; the last state need not be calm.
pub data CalmReach (n : ℕ) : System → Type 0 where
  here : CalmReach n boot
  next : {s t : System} → CalmReach n s → Calm s.pc → Step n s t → CalmReach n t

pub CalmReach-Reach : {n : ℕ} {s : System} → CalmReach n s → Reach n s
CalmReach-Reach here = Reach.here
CalmReach-Reach (next r calm st) = Reach.next (CalmReach-Reach r) st

abbrev pub seen : Option Event → Option ℤ
seen none = none
seen (some e) = some e.count

pub record Tally (n : ℕ) (k : Kernel) (pc : ℕ → Pc) : Type 0 where
  pub exact : (a : ℕ) (c : ℤ) → seen (k.heap a) ≡ some c → c ≡ pos (total (refs a) n pc)
  pub alive : (i a : ℕ) → uses a (pc i) ≡ true → allocated (k.heap a) ≡ true
  pub current : (i a : ℕ) (c d : ℤ) → copy a (pc i) ≡ some c → seen (k.heap a) ≡ some d → c ≡ d
  pub bounded : (i : ℕ) → n ≤ i → pc i ≡ idle

refs-zero_of_unused : (a : ℕ) (p : Pc) → uses a p ≡ false → refs a p ≡ 0
refs-zero_of_unused a p h = ground arith

-- No process counts at a place with no event.
pub unused :
    {n : ℕ} {k : Kernel} {pc : ℕ → Pc} (a : ℕ)
    → Tally n k pc
    → allocated (k.heap a) ≡ false
    → total (refs a) n pc ≡ 0
unused {n} {k} {pc} a tally free =
    total_weightless (refs a) n pc
      (λ j. refs-zero_of_unused a (pc j) (ground (arith, tally.alive j a)))

module _ {n : ℕ} {k : Kernel} {pc : ℕ → Pc} (tally : Tally n k pc) where
  pub below : (i : ℕ) → pc i ≢ idle → i < n
  below i busy = ground (arith, dec_lt i n, tally.bounded i)

  same_total :
      (i b : ℕ) (p' : Pc)
      → i < n
      → refs b p' ≡ refs b (pc i)
      → total (refs b) n pc ≡ total (refs b) n (update pc i p')
  same_total i b p' lt same = omega (arith, total-update (refs b) n pc i p' lt, same)

  -- A process that goes on to `p'`, counts as before, and has read no count but the right one.
  pub Tally-go :
      (k' : Kernel) (i : ℕ) (p' : Pc)
      → i < n
      → ((b : ℕ) → seen (k'.heap b) ≡ seen (k.heap b))
      → ((b : ℕ) → refs b p' ≡ refs b (pc i))
      → ((b : ℕ) → uses b p' ≡ true → allocated (k.heap b) ≡ true)
      → ((b : ℕ) (c d : ℤ) → copy b p' ≡ some c → seen (k.heap b) ≡ some d → c ≡ d)
      → Tally n k' (update pc i p')
  Tally-go k' i p' lt same counts kept right = record {
    exact =
        λ b c h. rw (← same_total i b p' lt (counts b)) (tally.exact b c (ground (arith, same b)));
    alive = λ j b h. ground (arith, tally.alive j b, kept b, same b);
    current = λ j b c d h h'. ground (arith, tally.current j b c d, right b c d, same b);
    bounded = λ j h. ground (arith, tally.bounded j);
  }

  -- A process that rewrites the event at `a`, whose count no other process is about to write.
  pub Tally-write :
      (i a : ℕ) (p' : Pc) (e e' : Event)
      → i < n
      → k.heap a ≡ some e
      → ((j : ℕ) → i ≢ j → holds a (pc j) ≡ false)
      → e'.count ≡ pos (total (refs a) n (update pc i p'))
      → ((b : ℕ) → b ≢ a → refs b p' ≡ refs b (pc i))
      → ((b : ℕ) → uses b p' ≡ true → allocated (k.heap b) ≡ true)
      → ((b : ℕ) → holds b p' ≡ false)
      → Tally n (write_event a e' k) (update pc i p')
  Tally-write i a p' e e' lt there alone right others kept bare = record {
    exact = λ b c h. elim (Bool-cases (a == b)) [
      | inl at ↦
          (let here : a ≡ b = ground arith in
            let written : c ≡ e'.count = ground arith in
            subst (λ x. c ≡ pos (total (refs x) n (update pc i p'))) here (written ∙ right))
      | inr off ↦
          rw (← same_total i b p' lt (others b (ground arith))) (tally.exact b c (ground arith))
    ];
    alive = λ j b h. ground (arith, tally.alive j b, kept b);
    current = λ j b c d h h'. ground (arith, tally.current j b c d, alone j, bare b);
    bounded = λ j h. ground (arith, tally.bounded j);
  }

  pub Tally-wake_up : (a : ℕ) → Tally n k (wake_up a pc)
  Tally-wake_up a = record {
    exact = λ b c h.
        rw (← total-cong (refs b) n pc (wake_up a pc) (λ j lt. ground arith)) (tally.exact b c h);
    alive = λ j b h. ground (arith, tally.alive j b);
    current = λ j b c d h h'. ground (arith, tally.current j b c d);
    bounded = λ j h. ground (arith, tally.bounded j h);
  }
