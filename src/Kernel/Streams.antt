-- ===== src/Kernel/Streams.antt =====
-- kernel/streams.c: the file descriptors of a process and the streams they refer to. A descriptor is a
-- `stream_ptr_t`, a stream a `stream_info_t`, named by its address; integers have 32 bits, a negative one
-- is its two's complement. Memory that has been freed keeps what it held.
pub mod Files
pub mod Counting
pub mod Tables
pub mod Duplicating
pub mod Selecting
pub mod Lookups
pub mod Children
pub mod Exhaustion
pub mod Endpoints
use posnk.Base.{
  ℕ, ◌+◌, ◌-◌, ◌%◌, ◌^◌, ◌==◌, ◌||◌, leb, ltb, if◌then◌else◌, add32, bit_and, bit_or, Bool, true,
  false, Option, none, some, List, [], ◌∷◌,
}

-- `struct stream_ptr`.
pub record StreamPtr : Type 0 where
  pub id : ℕ
  pub fd_flags : ℕ
  pub info : ℕ

-- STREAM_TYPE_FILE, STREAM_TYPE_PIPE and STREAM_TYPE_EXTERNAL.
pub data StreamType : Type 0 where
  type_file : StreamType
  type_pipe : StreamType
  type_external : StreamType

-- Of `struct stream_info`; `mode` is the mode of its inode, and `poll_created` tells whether the head of
-- its list of polls has been set.
pub record StreamInfo : Type 0 where
  pub type : StreamType
  pub ref_count : ℕ
  pub flags : ℕ
  pub mode : ℕ
  pub poll_created : Bool

-- The calls of the functions that hold the objects behind a stream, for the stream that they are made for.
pub data Call : Type 0 where
  down_lock : ℕ → Call
  device_char_close : ℕ → Call
  device_char_dup : ℕ → Call
  device_block_close : ℕ → Call
  close_pipe_read : ℕ → Call
  close_pipe_write : ℕ → Call
  free_pipe : ℕ → Call
  open_pipe_read : ℕ → Call
  open_pipe_write : ℕ → Call
  inode_open_count_down : ℕ → Call
  vfs_inode_release : ℕ → Call
  vfs_dir_cache_release : ℕ → Call
  ops_close : ℕ → Call

-- `fd_table` and `fd_ctr` are those of the process that a function is for, `others` are the descriptors of
-- all other processes. `allocated` tells which streams have not been freed, and `heap` what the next
-- calls of heapmm_alloc for a descriptor answer: that there is memory, or not.
pub record State : Type 0 where
  pub fd_table : List StreamPtr
  pub fd_ctr : ℕ
  pub others : List StreamPtr
  pub stream : ℕ → StreamInfo
  pub allocated : ℕ → Bool
  pub heap : List Bool
  pub syscall_errno : ℕ
  pub calls : List Call

abbrev pub ebadf : ℕ
ebadf = 9

abbrev pub emfile : ℕ
emfile = 24

abbrev pub fd_cloexec : ℕ
fd_cloexec = 1

abbrev pub minus_one : ℕ
minus_one = 2 ^ 32 - 1

-- `fd < 0`.
abbrev pub below_zero : ℕ → Bool
below_zero fd = leb (2 ^ 31) fd

-- `a >= b` for two `int`s.
abbrev pub at_least : ℕ → ℕ → Bool
at_least a b = leb (add32 b (2 ^ 31)) (add32 a (2 ^ 31))

-- S_ISCHR, S_ISBLK and S_ISFIFO.
abbrev pub s_ifmt : ℕ
s_ifmt = 61440

abbrev pub s_ischr : ℕ → Bool
s_ischr m = bit_and m s_ifmt == 8192

abbrev pub s_isblk : ℕ → Bool
s_isblk m = bit_and m s_ifmt == 24576

abbrev pub s_isfifo : ℕ → Bool
s_isfifo m = bit_and m s_ifmt == 4096

-- stream_get_ptr and stream_get_ptr_o: the first descriptor with the number.
unfoldable pub stream_get_ptr : ℕ → List StreamPtr → Option StreamPtr
stream_get_ptr fd [] = none
stream_get_ptr fd (ptr ∷ table) =
    let rest = stream_get_ptr fd table in if ptr.id == fd then some ptr else rest

-- llist_unlink of the descriptor that stream_get_ptr finds.
unfoldable pub unlink : ℕ → List StreamPtr → List StreamPtr
unlink fd [] = []
unlink fd (ptr ∷ table) = let rest = unlink fd table in if ptr.id == fd then table else ptr ∷ rest

-- The stream at one address changes.
abbrev pub with_stream : ℕ → StreamInfo → (ℕ → StreamInfo) → ℕ → StreamInfo
with_stream i info stream j = if j == i then info else stream j

abbrev pub fails : (errno : ℕ) → State → ℕ × State
fails errno s = (minus_one, record s { syscall_errno = errno })

-- The counter counts up; where it comes to 0 it is put back.
unfoldable pub stream_alloc_fd : State → ℕ × State
stream_alloc_fd s =
    let s' = record s { fd_ctr = add32 s.fd_ctr 1 } in
    if s'.fd_ctr == 0 then fails emfile s else (s.fd_ctr, s')

unfoldable pub stream_claim_fd : ℕ → State → State
stream_claim_fd fd s = if at_least fd s.fd_ctr then record s { fd_ctr = add32 fd 1 } else s

-- heapmm_alloc for a descriptor.
unfoldable pub heapmm_alloc : List Bool → Bool × List Bool
heapmm_alloc [] = (false, [])
heapmm_alloc (b ∷ bs) = (b, bs)
