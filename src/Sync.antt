-- ===== src/Sync.antt =====
-- hw3/personal/SThread/sync.c: the bounded thread queue, the recursive mutex built on it, and the
-- threads that use it.
pub mod Queue
pub mod Mutex
pub mod Threads
mod Tests
