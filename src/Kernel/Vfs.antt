-- ===== src/Kernel/Vfs.antt =====
-- kernel/vfs: of the virtual file system the access checks on inodes.
pub mod Perm
