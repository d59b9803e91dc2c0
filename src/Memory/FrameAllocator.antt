-- ===== src/Memory/FrameAllocator.antt =====
-- kernel/src/Memory/PhysicalPageFrameAllocator.cpp: one bit for each page frame, three byte
-- counters, a hint for the next free frame, and two spinlocks.
pub mod State
pub mod Pages
pub mod Search
pub mod Allocate
pub mod PageLaws
pub mod Invariant
pub mod AllocateLaws
pub mod ReleaseLaws
pub mod Loops
pub mod RunSearch
pub mod LockLaws
pub mod RunLaws
pub mod Faults
pub mod History
pub mod Init
pub mod InitLaws
pub mod InitMarks
