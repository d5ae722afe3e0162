-- ===== src/Threadpool.antt =====
-- server/src/threadpool/threadpool.c: a queue of work that a number of threads serve.
pub mod Queue
pub mod Pool
pub mod System
pub mod Counts
pub mod Invariant
pub mod Steps
pub mod Shutdown
mod Tests
