-- ===== src/Fs.antt =====
-- The file systems, fs/.
pub mod Ext2
