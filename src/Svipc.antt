-- ===== src/Svipc.antt =====
-- kernel/svipc: System V interprocess communication.
pub mod Perm
pub mod Table
pub mod Msg
pub mod Sem
