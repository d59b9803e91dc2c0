-- ===== src/Memory.antt =====
-- kernel/src/Memory: physical page frames, and the records of virtual memory.
pub mod FrameAllocator
pub mod Region
pub mod PageTables
pub mod PageTable
