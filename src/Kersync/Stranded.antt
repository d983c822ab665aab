-- ===== src/Kersync/Stranded.antt =====
-- Sleepers of hw3/group/TURNED_IN_Qiyuan_Qiguang/kersync/kersync.c that a close has missed.
use cs.Base.{ℕ, ◌≡◌, ◌≢◌, Bool, true, false, ◌==◌, Option, arith}
use cs.Base.Int.{ℤ}
use cs.Base.Family.{update}
use cs.Kersync.{Kernel}
use cs.Kersync.Calls.{
  Pc, counting, drowsy, asleep, signalling, closing, System, go_on, start_count, allocated, Step,
  open_event, enter, count, enter_close, check, sleep_on, leave, signal, drop, close, Reach, Steps,
  stay, more,
}
use cs.Kersync.Links.{occurs}
use cs.Kersync.Lookup.{Entered, Unlinked, enter-Entered, close-Unlinked}
use cs.Kersync.Keeps.Always.{Reach-Links}
use cs.Kersync.Abandoned.{IsAbandoned, Step-IsAbandoned}

-- The process is in a signal of the event at `a`, or counts itself in at it.
abbrev nears : ℕ → Pc → Bool
nears a (counting x b c) = b == a
nears a (signalling b) = b == a
nears a _ = false

-- A process asleep on an abandoned event that nobody is about to signal.
record IsStranded (i a : ℕ) (s : System) : Type 0 where
  abandoned : IsAbandoned a s
  unsignalled : (j : ℕ) → nears a (s.pc j) ≡ false
  sleeps : s.pc i ≡ asleep a

Entered-unsignalled :
    (a i : ℕ) (signals : Bool) (p : Option (ℕ × ℤ)) (k' : Kernel) (s : System)
    → occurs a s.kernel.event_list ≡ false
    → ((j : ℕ) → nears a (s.pc j) ≡ false)
    → Entered s.kernel p k'
    → (j : ℕ) → nears a (update s.pc i (start_count signals p) j) ≡ false
Entered-unsignalled a i signals p k' s gone quiet (Entered.missed e same) j =
    ground (arith, quiet j)
Entered-unsignalled a i signals p k' s gone quiet (Entered.found b e is listed there same) j =
    ground (arith, quiet j, gone)

Unlinked-unsignalled :
    (a i : ℕ) (p : Option ℕ) (k' : Kernel) (s : System)
    → ((j : ℕ) → nears a (s.pc j) ≡ false)
    → Unlinked s.kernel p k'
    → (j : ℕ) → nears a (update s.pc i (go_on closing p) j) ≡ false
Unlinked-unsignalled a i p k' s quiet (Unlinked.missed e same) j = ground (arith, quiet j)
Unlinked-unsignalled a i p k' s quiet (Unlinked.found b is listed same) j = ground (arith, quiet j)

Step-unsignalled :
    {n : ℕ} {s t : System} (a : ℕ)
    → Step n s t
    → occurs a s.kernel.event_list ≡ false
    → ((j : ℕ) → nears a (s.pc j) ≡ false)
    → (j : ℕ) → nears a (t.pc j) ≡ false
Step-unsignalled a (open_event i place lt at free fresh run e) gone quiet j = rw e (quiet j)
Step-unsignalled {s = s} a (enter i signals id {p} {k} lt at free run e) gone quiet j =
    rw e (Entered-unsignalled a i signals p k s gone quiet (enter-Entered id s.kernel k p run) j)
Step-unsignalled a (count i b signals c at run e) gone quiet j =
    rw e (ground (arith, quiet j, quiet i))
Step-unsignalled a (drop i b c at run e) gone quiet j = rw e (ground (arith, quiet j))
Step-unsignalled {s = s} a (enter_close i id {p} {k} lt at free run e) gone quiet j =
    rw e (Unlinked-unsignalled a i p k s quiet (close-Unlinked id s.kernel k p run) j)
Step-unsignalled a (check i b at free run e) gone quiet j = rw e (ground (arith, quiet j))
Step-unsignalled a (sleep_on i b at e) gone quiet j = rw e (ground (arith, quiet j))
Step-unsignalled a (leave i b at free run e) gone quiet j = rw e (ground (arith, quiet j))
Step-unsignalled a (signal i b at free run e) gone quiet j = rw e (ground (arith, quiet j))
Step-unsignalled a (close i b at free run e) gone quiet j = rw e (ground (arith, quiet j))

-- A sleeper is only moved by a signal or a close of its own event.
Step-sleeps : {n : ℕ} {s t : System} (i a : ℕ) → Step n s t → IsStranded i a s → t.pc i ≡ asleep a
Step-sleeps i a (open_event j place lt at free fresh run e) g = rw e g.sleeps
Step-sleeps i a (count j b signals c at run e) g = rw e (ground (arith, g.sleeps))
Step-sleeps i a (drop j b c at run e) g = rw e (ground (arith, g.sleeps))
Step-sleeps i a (enter j signals id lt at free run e) g = rw e (ground (arith, g.sleeps))
Step-sleeps i a (enter_close j id lt at free run e) g = rw e (ground (arith, g.sleeps))
Step-sleeps i a (check j b at free run e) g = rw e (ground (arith, g.sleeps))
Step-sleeps i a (sleep_on j b at e) g = rw e (ground (arith, g.sleeps))
Step-sleeps i a (leave j b at free run e) g = rw e (ground (arith, g.sleeps))
Step-sleeps i a (signal j b at free run e) g = rw e (ground (arith, g.sleeps, g.unsignalled j))
Step-sleeps i a (close j b at free run e) g =
    rw e (ground (arith, g.sleeps, g.abandoned.unclosed j))

Steps-IsStranded :
    {n : ℕ} {s t : System} (i a : ℕ) → Steps n s t → IsStranded i a s → IsStranded i a t
Steps-IsStranded i a stay g = g
Steps-IsStranded i a (more r st) g =
    let before = Steps-IsStranded i a r g in
    record {
      abandoned = Step-IsAbandoned a st before.abandoned;
      unsignalled = Step-unsignalled a st before.abandoned.unlinked before.unsignalled;
      sleeps = Step-sleeps i a st before;
    }

-- A process that has passed the check of `invalid` when its event is closed, and is not yet asleep,
-- sleeps for ever: once it is in sleep_on, with the event off the list and still allocated and no
-- signal or close of it under way, it stays there in every state that follows.
pub waiter_stranded :
    {n : ℕ} {s t : System} (i a : ℕ)
    → Reach n s
    → occurs a s.kernel.event_list ≡ false
    → allocated (s.kernel.heap a) ≡ true
    → ((j : ℕ) → (s.pc j ≢ closing a) × (s.pc j ≢ signalling a))
    → s.pc i ≡ drowsy a
    → Steps n (record s { pc = update s.pc i (asleep a) }) t
    → t.pc i ≡ asleep a
waiter_stranded {s = s} i a r gone kept quiet at later =
    (Steps-IsStranded i a later (record {
      abandoned = record {
        unlinked = gone;
        unclosed = λ j h. ground (arith, quiet j);
        there = kept;
      };
      unsignalled = λ j. ground (arith, quiet j, (Reach-Links r).counted_in j a);
      sleeps = ground arith;
    })).sleeps
