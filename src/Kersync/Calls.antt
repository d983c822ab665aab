-- ===== src/Kersync/Calls.antt =====
-- The system calls of hw3/group/TURNED_IN_Qiyuan_Qiguang/kersync/kersync.c as steps of processes.
-- A process that finds a spin lock held spins, which is no step. sleep_on puts a process to sleep
-- that nothing but a wake_up on the event's queue ends, and wake_up ends the sleep of all. Between the
-- read and the write of a `count++` or `count--` other processes take steps, also ones that change
-- the same count under the other lock.
use cs.Base.{ℕ, ◌<◌, ◌≡◌, Bool, true, false, Option, none, some, ◌==◌, not, if◌then◌else◌}
use cs.Base.Int.{ℤ}
use cs.Base.Outcome.{ok}
use cs.Base.Family.{update}
use cs.Kersync.{
  Event, Kernel, doevent_init, doevent_open, doevent_enter, count_up, count_down, wait_check,
  wait_leave, sig_body, close_find, close_body,
}

-- Where a process stands, with the event that its call holds: between the read and the write of
-- `count++`, in a wait or a signal, with the number read; before the check of `invalid`; between it and
-- sleep_on; in sleep_on; woken up; before the wake_up of a signal; between the read and the write of
-- `count--`; before the wake_up of a close.
pub data Pc : Type 0 where
  idle : Pc
  counting : Bool → ℕ → ℤ → Pc
  waiting : ℕ → Pc
  drowsy : ℕ → Pc
  asleep : ℕ → Pc
  woken : ℕ → Pc
  signalling : ℕ → Pc
  leaving : ℕ → ℤ → Pc
  closing : ℕ → Pc

pub record System : Type 0 where
  pub kernel : Kernel
  pub pc : ℕ → Pc

-- wake_up of the event at `a`
abbrev pub rouse : ℕ → Pc → Pc
rouse a (asleep b) = if b == a then woken b else asleep b
rouse a p = p

abbrev pub wake_up : ℕ → (ℕ → Pc) → ℕ → Pc
wake_up a pc i = rouse a (pc i)

-- A call returns where it finds no event, and goes on with the one that it finds.
abbrev pub go_on : (ℕ → Pc) → Option ℕ → Pc
go_on call none = idle
go_on call (some a) = call a

abbrev pub start_count : Bool → Option (ℕ × ℤ) → Pc
start_count signals none = idle
start_count signals (some (a, c)) = counting signals a c

-- A signal or a wait, behind its `count++`.
abbrev pub counted : Bool → ℕ → Pc
counted true a = signalling a
counted false a = waiting a

-- Behind the check of `invalid`.
abbrev pub checked : ℕ → Option ℤ → Pc
checked a none = drowsy a
checked a (some c) = leaving a c

abbrev pub allocated : Option Event → Bool
allocated none = false
allocated (some e) = true

-- kmalloc returns no memory, or a place that is not allocated.
abbrev pub is_fresh : Kernel → Option ℕ → Bool
is_fresh k none = true
is_fresh k (some a) = if allocated (k.heap a) then false else true

-- The lock of the event at `a` is free; a lock in freed memory is taken for free.
abbrev pub is_unlocked : Option Event → Bool
is_unlocked none = true
is_unlocked (some e) = not e.e_lock

-- One step of process `i` of `n`.
pub data Step (n : ℕ) (s t : System) : Type 0 where
  open_event :
      (i : ℕ) (place : Option ℕ) {r : Bool} {k : Kernel}
      → i < n
      → s.pc i ≡ idle
      → s.kernel.list_lock ≡ false
      → is_fresh s.kernel place ≡ true
      → doevent_open place s.kernel ≡ ok (r, k)
      → t ≡ record s { kernel = k }
      → Step n s t
  enter :
      (i : ℕ) (signals : Bool) (id : ℕ) {p : Option (ℕ × ℤ)} {k : Kernel}
      → i < n
      → s.pc i ≡ idle
      → s.kernel.list_lock ≡ false
      → doevent_enter id s.kernel ≡ ok (p, k)
      → t ≡ record { kernel = k; pc = update s.pc i (start_count signals p) }
      → Step n s t
  count :
      (i a : ℕ) (signals : Bool) (c : ℤ) {k : Kernel}
      → s.pc i ≡ counting signals a c
      → count_up a c s.kernel ≡ ok k
      → t ≡ record { kernel = k; pc = update s.pc i (counted signals a) }
      → Step n s t
  enter_close :
      (i id : ℕ) {p : Option ℕ} {k : Kernel}
      → i < n
      → s.pc i ≡ idle
      → s.kernel.list_lock ≡ false
      → close_find id s.kernel ≡ ok (p, k)
      → t ≡ record { kernel = k; pc = update s.pc i (go_on closing p) }
      → Step n s t
  check :
      (i a : ℕ) {o : Option ℤ} {k : Kernel}
      → s.pc i ≡ waiting a
      → is_unlocked (s.kernel.heap a) ≡ true
      → wait_check a s.kernel ≡ ok (o, k)
      → t ≡ record { kernel = k; pc = update s.pc i (checked a o) }
      → Step n s t
  sleep_on :
      (i a : ℕ) → s.pc i ≡ drowsy a → t ≡ record s { pc = update s.pc i (asleep a) } → Step n s t
  leave :
      (i a : ℕ) {c : ℤ} {k : Kernel}
      → s.pc i ≡ woken a
      → is_unlocked (s.kernel.heap a) ≡ true
      → wait_leave a s.kernel ≡ ok (c, k)
      → t ≡ record { kernel = k; pc = update s.pc i (leaving a c) }
      → Step n s t
  signal :
      (i a : ℕ) {r : Bool} {c : ℤ} {k : Kernel}
      → s.pc i ≡ signalling a
      → is_unlocked (s.kernel.heap a) ≡ true
      → sig_body a s.kernel ≡ ok (r, c, k)
      → t ≡ record { kernel = k; pc = update (if r then wake_up a s.pc else s.pc) i (leaving a c) }
      → Step n s t
  drop :
      (i a : ℕ) (c : ℤ) {k : Kernel}
      → s.pc i ≡ leaving a c
      → count_down a c s.kernel ≡ ok k
      → t ≡ record { kernel = k; pc = update s.pc i idle }
      → Step n s t
  close :
      (i a : ℕ) {r : Bool} {k : Kernel}
      → s.pc i ≡ closing a
      → is_unlocked (s.kernel.heap a) ≡ true
      → close_body a s.kernel ≡ ok (r, k)
      → t ≡ record { kernel = k; pc = update (wake_up a s.pc) i idle }
      → Step n s t

abbrev pub boot : System
boot = record { kernel = doevent_init; pc = λ _. idle }

pub data Reach (n : ℕ) : System → Type 0 where
  here : Reach n boot
  next : {s t : System} → Reach n s → Step n s t → Reach n t

-- Any number of steps.
pub data Steps (n : ℕ) (s : System) : System → Type 0 where
  stay : Steps n s s
  more : {t u : System} → Steps n s t → Step n t u → Steps n s u
