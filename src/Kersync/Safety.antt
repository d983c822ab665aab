-- ===== src/Kersync/Safety.antt =====
-- The memory of hw3/group/TURNED_IN_Qiyuan_Qiguang/kersync/kersync.c while the changes of a count do not
-- overlap.
use cs.Base.{ℕ, ◌≡◌, some, arith}
use cs.Base.Int.{pos}
use cs.Base.Family.{total}
use cs.Kersync.{Event}
use cs.Kersync.Calls.{System}
use cs.Kersync.Calm.{refs, CalmReach}
use cs.Kersync.Calm.Always.{CalmReach-Tally}

-- In every state that is reached without two processes ever standing, at the start of a step, between
-- the read and the write of the count of one event, the count of an event is the number of processes
-- in the midst of a wait or a signal on it, from the write of `count++` to that of `count--`.
pub count_exact :
    {n : ℕ} {s : System}
    → CalmReach n s
    → (a : ℕ) (e : Event) → s.kernel.heap a ≡ some e
    → e.count ≡ pos (total (refs a) n s.pc)
count_exact r a e h = (CalmReach-Tally r).exact a e.count (ground arith)
