-- ===== src/Kersync.antt =====
-- hw3/group/TURNED_IN_Qiyuan_Qiguang/kersync/kersync.c: events on which processes wait in the kernel.
-- An event is a place in `heap`, `none` where no event is allocated. `count++` and `count--` are a read
-- and a write, since they stand under different locks and can overlap: a function here is what a
-- system call does under one spin lock up to the read, or from the write on. Calls has the order in
-- which the calls run them. What kmalloc answers is an argument; sleep_on and wake_up of the kernel
-- are steps of the processes in Calls. That `count` overflows is left out.
pub mod Calls
pub mod Links
pub mod Lookup
pub mod Effects
pub mod Keeps
pub mod Calm
pub mod Safety
pub mod Abandoned
pub mod Stranded
pub mod Limit
pub mod Ids
pub mod Search
mod Tests
use cs.Base.{
  ℕ, ◌+◌, ◌-◌, Bool, true, false, Option, none, some, List, [], ◌∷◌, ltb, ◌==◌, not, if◌then◌else◌,
}
use cs.Base.Int.{ℤ, pos, eq_ℤ, ◌+ℤ◌, ◌-ℤ◌}
use cs.Base.Outcome.{Outcome, ok, fault, ◌>>=◌, deref}
use cs.Base.Family.{update}

-- `event_t`, without its wait queue (the processes asleep on it) and its list entry.
pub record Event : Type 0 where
  pub event_id : ℕ
  pub invalid : Bool
  pub count : ℤ
  pub e_lock : Bool

-- The file's globals and the memory of the events; a spin lock is true while it is held between two
-- of the functions here.
pub record Kernel : Type 0 where
  pub heap : ℕ → Option Event
  pub event_list : List ℕ
  pub next_event_id : ℕ
  pub list_lock : Bool

abbrev pub max_event_id : ℕ
max_event_id = 5000

-- doevent_init; at boot the list is empty.
abbrev pub doevent_init : Kernel
doevent_init = record { heap = λ _. none; event_list = []; next_event_id = 0; list_lock = false }

unfoldable pub find_event_by_id : (ℕ → Option Event) → List ℕ → ℕ → Outcome (Option ℕ)
find_event_by_id heap [] id = ok none
find_event_by_id heap (f ∷ l) id =
    let further = find_event_by_id heap l id in
    elim (heap f) [ none ↦ fault | some e ↦ if e.event_id == id then ok (some f) else further ]

-- event_init at the place that kmalloc returned
abbrev pub event_init : ℕ → Event
event_init id = record { event_id = id; invalid = false; count = pos 0; e_lock = false }

-- sys_doevent_open: true for 0, false for -1, which leaves the lock held. `place` is what kmalloc
-- returns.
unfoldable pub doevent_open : Option ℕ → Kernel → Outcome (Bool × Kernel)
doevent_open place k =
    if ltb max_event_id k.next_event_id
    then ok (false, record k { list_lock = true })
    else elim place [
      | none ↦ fault
      | some a ↦ ok (
        true,
        record k {
          heap = update k.heap a (some (event_init k.next_event_id));
          event_list = a ∷ k.event_list;
          next_event_id = k.next_event_id + 1;
        },
      )
    ]

-- `event->field = …` through a pointer
abbrev pub write_event : ℕ → Event → Kernel → Kernel
write_event a e k = record k { heap = update k.heap a (some e) }

-- `if(event==NULL) … return -1;` and the read of `event->count++`, with the list lock held on.
unfoldable pub count_read : Option ℕ → Kernel → Outcome (Option (ℕ × ℤ) × Kernel)
count_read none k = ok (none, k)
count_read (some a) k = do
  e ← deref (k.heap a)
  ok (some (a, e.count), record k { list_lock = true })

-- sys_doevent_wait and sys_doevent_sig under the list lock: find the event, and read its count.
unfoldable pub doevent_enter : ℕ → Kernel → Outcome (Option (ℕ × ℤ) × Kernel)
doevent_enter id k = do p ← find_event_by_id k.heap k.event_list id; count_read p k

-- The write of `event->count++`, and the unlock of the list lock.
unfoldable pub count_up : ℕ → ℤ → Kernel → Outcome Kernel
count_up a c k = do
  e ← deref (k.heap a)
  ok (record (write_event a (record e { count = c +ℤ pos 1 }) k) { list_lock = false })

-- The read of `event->count--`, with the event's lock held on.
unfoldable pub lock_event : ℕ → Event → Kernel → ℤ × Kernel
lock_event a e k = (e.count, write_event a (record e { e_lock = true }) k)

-- The write of `event->count--`, and the unlock of the event's lock.
unfoldable pub count_down : ℕ → ℤ → Kernel → Outcome Kernel
count_down a c k = do
  e ← deref (k.heap a)
  ok (write_event a (record e { count = c -ℤ pos 1; e_lock = false }) k)

-- sys_doevent_wait under the event's lock, before the sleep, up to the read of `count--` if the event is
-- invalid.
unfoldable pub wait_check : ℕ → Kernel → Outcome (Option ℤ × Kernel)
unfolding lock_event
wait_check a k = do
  e ← deref (k.heap a)
  let (c, k') = lock_event a e k
  ok (if e.invalid then (some c, k') else (none, k))

-- sys_doevent_wait under the event's lock, after the sleep, up to the read of `count--`.
unfoldable pub wait_leave : ℕ → Kernel → Outcome (ℤ × Kernel)
unfolding lock_event
wait_leave a k = do e ← deref (k.heap a); ok (lock_event a e k)

-- sys_doevent_sig under the event's lock, up to the read of `count--`: true if it called wake_up.
unfoldable pub sig_body : ℕ → Kernel → Outcome (Bool × ℤ × Kernel)
unfolding lock_event
sig_body a k = do e ← deref (k.heap a); let (c, k') = lock_event a e k; ok (not e.invalid, c, k')

-- list_del
unfoldable pub list_del : ℕ → List ℕ → List ℕ
list_del a [] = []
list_del a (b ∷ l) = let rest = list_del a l in if b == a then l else b ∷ rest

-- `if(event == NULL) … return -1; list_del(&event->list)`
unfoldable pub unlink : Option ℕ → Kernel → Option ℕ × Kernel
unlink none k = (none, k)
unlink (some a) k = (some a, record k { event_list = list_del a k.event_list })

-- sys_doevent_close under the list lock
unfoldable pub close_find : ℕ → Kernel → Outcome (Option ℕ × Kernel)
close_find id k = do p ← find_event_by_id k.heap k.event_list id; ok (unlink p k)

-- sys_doevent_close under the event's lock, with its wake_up: true if the event was freed, and then
-- the unlock that follows writes to freed memory.
unfoldable pub close_body : ℕ → Kernel → Outcome (Bool × Kernel)
close_body a k = do
  e ← deref (k.heap a)
  ok (
      if eq_ℤ e.count (pos 0)
      then (true, record k { heap = update k.heap a none })
      else (false, write_event a (record e { invalid = true }) k))
