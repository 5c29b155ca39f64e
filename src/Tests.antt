-- ===== src/Tests.antt =====
-- Runs of the model at small inputs, and the theorems at inputs that meet their hypotheses.
mod Kernel
mod Pipes
mod Messages
mod Semaphores
mod Frames
mod Blocks
mod Lists
mod Terminals
mod Numbers
mod Signals
mod Ext2
mod Streams
