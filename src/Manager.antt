-- ===== src/Manager.antt =====
-- hw3/personal/SThread/sthread.c: the threads of a process and their manager, over an explicit memory
-- of thread structures with their next pointers. Run has the commands, Threads the thread list,
-- Requests what the manager does for a message, Client what the threads do.
pub mod Run
pub mod Threads
pub mod Requests
pub mod Client
mod Tests
use cs.Base.{ℕ}
