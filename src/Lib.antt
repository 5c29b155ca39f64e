-- ===== src/Lib.antt =====
-- P-OS kernel (posnk): models of parts of its C code and theorems about them.
--
-- The program is a hobby operating system kernel for i386 and ARMv7, whose types have 32 bits.
-- The parts that are modelled work together as follows. A system call of a process runs in the
-- kernel until it returns or sleeps on a semaphore (kernel/task/synch.c); the scheduler
-- (kernel/task/scheduler.c) wakes it when the semaphore is raised or a signal comes. Pipes
-- (kernel/pipe.c), System V message queues (kernel/svipc/msg.c) and semaphore sets
-- (kernel/svipc/sem.c) are objects that several processes share and sleep on. The frame
-- allocator (kernel/mm/physmm.c) and the block operations of the C library (crt/string.c) serve
-- all of them. A terminal (kernel/tty.c) edits what its driver puts in and hands the lines to
-- its reader through a pipe. Most lists of the kernel are rings (util/llist.c), and its caches
-- are hash tables whose entries stand in a ring in the order of their last use (util/mruc.c).
-- Signals (kernel/proc/signal.c, kernel/proc/signal_api.c) become pending for a process or a
-- thread and interrupt its sleep. A process names its open files, pipes and devices by
-- descriptors, which refer to streams that several processes share (kernel/streams.c); the
-- blocks of a file on an ext2 volume are found through blocks of ids (fs/ext2/inoblk.c). Access
-- to System V objects is checked by class (kernel/permissions.c, kernel/svipc/ipc.c).
--
-- How state is represented:
-- - Base: native numbers, lists, 32-bit arithmetic, and Memory, a region as a function from
--   offsets to bytes.
-- - Kernel/Outcome: the end of a call that may sleep. What other tasks do is a schedule, a list
--   of turns; a turn is one look of the scheduler at the sleeping task, before which the other
--   tasks have changed the shared state.
-- - Kernel/Scheduler and Kernel/Synch: scheduler_wait, scheduler_block_on,
--   scheduler_handle_resume, scheduler_may_run and the semaphore_ functions. Task has a field
--   for each TASK_STATE_ flag.
-- - Kernel/Loop: a loop whose rounds may sleep, with the rule by which its theorems are proved.
-- - Kernel/Pipe: struct pipe_info and the pipe_ functions of kernel/pipe.c.
-- - Kernel/Permissions and Svipc/Perm: get_perm_class and the ipc_ checks. The current process
--   is an argument.
-- - Kernel/Vfs/Perm: the access checks of kernel/vfs/perm.c on an inode's owner, group and
--   mode.
-- - Kernel/Signal: the fields of struct process_info and of struct task for signals and the
--   functions of kernel/proc/signal.c and signal_api.c: Send raises signals, Handle carries
--   them out, and Api has the system calls. A signal set is a function from the signal's
--   number.
-- - Kernel/Streams: the table of descriptors, the streams by their address with the bit that
--   tells whether they are allocated, and the functions of kernel/streams.c that make and close
--   descriptors: Files, and Endpoints for _sys_pipe2. What they ask of drivers, pipes and
--   inodes is a list of calls.
-- - Fs/Ext2: ext2_decode_block_id and ext2_set_block_id of fs/ext2/inoblk.c, in stages as the
--   code has them, on a device of 32-bit words whose reads and writes each have a status. Walk
--   has the layout that the format prescribes.
-- - Svipc/Table: objects in the order of their list; a pointer to an object is its id, and ids
--   are not used again.
-- - Svipc/Msg: msg_info_t and _sys_msgrcv, _sys_msgsnd, _sys_msgctl and _sys_msgget, in the
--   child modules Receive, Send and Control.
-- - Svipc/Sem: sem_info_t and _sys_semop, _sys_semctl and _sys_semget, in the child modules
--   Operate and Control.
-- - Util/Llist: the rings of util/llist.c, as the next and prev of every node by its address.
--   IsRing says which list a ring stands for.
-- - Util/Mruc: struct mruc and the mruc_ functions of util/mruc.c, on two such maps of links.
--   IsCache says which entries a cache holds and what its buckets are; a theorem that needs an
--   eviction callback takes mruc_remove.
-- - Kernel/Tty: struct tty_info and the functions of kernel/tty.c: Input is what the driver
--   puts in, Device what a process does to the device, and Editor the line editor on lists to
--   which canonical input is compared. What the driver, the signals and those that poll see of
--   a terminal is a list of events.
-- - Kernel/Physmm: the bitmap of kernel/mm/physmm.c, whose words are functions from a bit's
--   number to its value, and the physmm_ functions.
-- - Crt/String: memset, memcpy and memcpy_o of crt/string.c on one memory, with the alignment
--   of their addresses.
-- - Crt/Numfmt: numfmt_unsigned of crt/numfmt.c, with its buffer of 33 bytes.
-- - Tests: runs of the model, and the theorems at concrete inputs.
--
-- Fuel. A loop that may sleep takes fuel. Between two turns a task can go round only by taking
-- the semaphore, a 32-bit number, so the value of the semaphore and 2^32 rounds for each turn
-- are enough (patience in Kernel/Synch/Wait). An uninterruptible wait uses a turn in each
-- round. The loop over a range of frames takes fuel for its pages. The loops over a ring, a
-- bucket and a cache take fuel, and more than there are entries is enough; the loop of
-- numfmt_unsigned takes a round for each digit; a write to a pipe without blocking ends in two
-- rounds. The loops that close descriptors take one round more than the table has descriptors,
-- since each round takes one out of it.
--
-- Not modelled: hardware access, context switches, the kernel heap (whether an allocation
-- succeeds is an argument), copies between user and kernel memory (their outcome is an
-- argument), and the other parts of the kernel, such as forking and executing processes, the
-- rest of kernel/vfs and of the file systems, and reading and writing of streams. The lock of a
-- stream that is closed is taken without a wait.
pub mod Base
pub mod Crt
pub mod Fs
pub mod Kernel
pub mod Svipc
pub mod Tests
pub mod Util
