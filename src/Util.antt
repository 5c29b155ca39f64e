-- ===== src/Util.antt =====
-- Data structures shared by the kernel, util/.
pub mod Llist
pub mod Mruc
