-- ===== src/Tests.antt =====
-- The theorems at concrete inputs, and runs of the definitions.
mod Bitmaps
mod Frames
mod Trees
mod Pools
mod Regions
mod Stacks
mod Threads
mod Descriptors
mod Keys
mod Tables
mod Paging
mod Streams
mod Buffers
