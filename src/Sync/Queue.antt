-- ===== src/Sync/Queue.antt =====
-- The queue routines of hw3/personal/SThread/sync.c (Q_init to Q_pop) and the structures of sync.h.
-- A `struct q_member *` is an index into `member`, with `none` for NULL. A thread handle is a
-- number, 0 for NULL. `head` only grows in Q_pop, so it is kept unreduced, as in the source.
pub mod Fifo
use cs.Base.{
  ℕ, zero, suc, ◌+◌, ◌-◌, ◌%◌, ◌≤◌, ◌<◌, ◌≡◌, Bool, true, false, Option, none, some, List, [], ◌∷◌,
  ltb, leb, ◌==◌, if◌then◌else◌, get_elem?, set, replicate,
}
use cs.Base.Outcome.{Outcome, ok, fault, ◌>>=◌, int_inc, deref}

abbrev pub max_q_size : ℕ
max_q_size = 25

-- `struct q_member`
pub record QMember : Type 0 where
  pub thread : ℕ
  pub count : ℕ

-- `struct queue`
pub record Queue : Type 0 where
  pub member : List QMember
  pub size : ℕ
  pub head : ℕ
  pub tail : ℕ

abbrev pub zero_member : QMember
zero_member = record { thread = 0; count = 0 }

unfoldable pub q_init : Queue
q_init = record { member = replicate max_q_size zero_member; size = 0; head = 24; tail = 24 }

unfoldable pub q_empty : Queue → Bool
q_empty q = q.size == 0

unfoldable pub q_full : Queue → Bool
q_full q = q.size == max_q_size

-- `(head + 1) % MAX_Q_SIZE`; the sum overflows at INT_MAX.
unfoldable pub q_first : Queue → Outcome (Option ℕ)
unfolding q_empty
q_first q = if q_empty q then ok none else do h ← int_inc q.head; ok (some (h % max_q_size))

unfoldable pub q_last : Queue → Option ℕ
unfolding q_empty
q_last q = if q_empty q then none else some q.tail

-- What `p_cnt_mem->ptr_thread = t; p_cnt_mem->count = 1` does through the pointer.
abbrev pub write_member : Queue → Option ℕ → QMember → Outcome Queue
write_member q none m = fault
write_member q (some i) m =
    if ltb i max_q_size then ok (record q { member = set q.member i m }) else fault

-- The status is 0, or 1 for the -1 of a full queue.
pub data Status : Type 0 where
  success failure : Status

unfoldable pub q_push : ℕ → Queue → Outcome (Status × Queue)
unfolding q_last
q_push t q = if leb max_q_size q.size then ok (failure, q) else do
  let grown = record q { size = q.size + 1; tail = (q.tail + 1) % max_q_size }
  q' ← write_member grown (q_last grown) (record { thread = t; count = 1 })
  ok (success, q')

-- As in the source `size` is decremented before Q_first is asked, and `head + 1 % MAX_Q_SIZE` is
-- `head + 1`.
unfoldable pub q_pop : Queue → Outcome (Option ℕ × Queue)
unfolding q_empty q_first
q_pop q = if q_empty q then ok (none, q) else do
  let shrunk = record q { size = q.size - 1 }
  p_first ← q_first shrunk
  h ← int_inc shrunk.head
  ok (p_first, record shrunk { head = h })

-- `*p` for a pointer into the array
unfoldable pub q_member : Queue → Option ℕ → Outcome QMember
q_member q p = do i ← deref p; deref (get_elem? q.member i)
