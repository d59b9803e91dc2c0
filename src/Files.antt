-- ===== src/Files.antt =====
-- kernel/src/fs: the descriptors of open files, and the streams of files.
pub mod FileDescriptor
pub mod DescriptorManager
pub mod FileStream
pub mod DirectoryStream
