-- ===== src/Kernel.antt =====
-- The parts of kernel/ outside svipc/.
pub mod Permissions
pub mod Outcome
pub mod Scheduler
pub mod Synch
pub mod Loop
pub mod Physmm
pub mod Pipe
pub mod Tty
pub mod Vfs
pub mod Signal
pub mod Streams
