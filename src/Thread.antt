-- ===== src/Thread.antt =====
-- src/modified/sys/thread.c: threads, their lists, the scheduler, conditions and locks.
pub mod Queue
pub mod Sched
pub mod Lock
pub mod Table
mod Tests
