-- ===== src/Data.antt =====
-- kernel/src/Data-structures: the containers that the rest of the kernel is built on.
pub mod Bitmap
pub mod AvlTree
pub mod NodePool
pub mod Stack
pub mod Buffer
