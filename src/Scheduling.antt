-- ===== src/Scheduling.antt =====
-- kernel/src/Scheduling: lists of threads, and the semaphore.
pub mod ThreadList
pub mod Semaphore
