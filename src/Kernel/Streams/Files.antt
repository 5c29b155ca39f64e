-- ===== src/Kernel/Streams/Files.antt =====
-- kernel/streams.c: closing, duplicating and passing on descriptors. `ext_close` is the status of the
-- `close` operation of an external stream, 0 for success.
use posnk.Base.{
  ℕ, suc, zero, ◌-◌, ◌==◌, ◌&&◌, not, if◌then◌else◌, add32, sub32, bit_and, bit_or, Bool, true,
  false, Option, none, some, List, [], ◌∷◌, ◌++◌, length,
}
use posnk.Kernel.Streams.{
  StreamPtr, StreamType, type_file, type_pipe, type_external, StreamInfo, Call, down_lock,
  device_char_close, device_char_dup, device_block_close, close_pipe_read, close_pipe_write,
  free_pipe, inode_open_count_down, vfs_inode_release, vfs_dir_cache_release, ops_close, State,
  ebadf, emfile, fd_cloexec, minus_one, below_zero, s_ischr, s_isblk, s_isfifo, stream_get_ptr,
  unlink, with_stream, fails, stream_alloc_fd, stream_claim_fd, heapmm_alloc,
}

abbrev pub o_accmode : ℕ
o_accmode = 3

abbrev pub is_file : StreamType → Bool
is_file type_file = true
is_file type_pipe = false
is_file type_external = false

-- `(flags & O_ACCMODE) == O_RDONLY` and `== O_WRONLY`.
abbrev pub reads_only : StreamInfo → Bool
reads_only info = bit_and info.flags o_accmode == 0

abbrev pub writes_only : StreamInfo → Bool
writes_only info = bit_and info.flags o_accmode == 1

-- The switch over the type: the calls for the last descriptor of a stream.
unfoldable pub release_calls : (current : Bool) → ℕ → StreamInfo → StreamType → List Call
release_calls current i info type_file =
    (if s_isfifo info.mode
      then (if reads_only info
          then close_pipe_read i ∷ []
          else if writes_only info
          then close_pipe_write i ∷ []
          else close_pipe_read i ∷ close_pipe_write i ∷ [])
      else if s_isblk info.mode && current
      then device_block_close i ∷ []
      else [])
    ++ (inode_open_count_down i ∷ vfs_inode_release i ∷ vfs_dir_cache_release i ∷ [])
release_calls current i info type_pipe =
    (if reads_only info
      then close_pipe_read i ∷ []
      else if writes_only info
      then close_pipe_write i ∷ []
      else [])
    ++ (free_pipe i ∷ [])
release_calls current i info type_external = ops_close i ∷ []

-- The status of the switch.
abbrev pub release_status : (ext_close : ℕ → ℕ) → ℕ → StreamType → ℕ
release_status ext_close i type_file = 0
release_status ext_close i type_pipe = 0
release_status ext_close i type_external = ext_close i

-- The last descriptor of a stream is gone: the stream is freed, where its own close does not fail.
unfoldable pub release : (ext_close : ℕ → ℕ) → (current : Bool) → ℕ → State → ℕ × State
release ext_close current i s =
    let info = s.stream i in
    let s' = record s {
      calls = s.calls ++ (down_lock i ∷ release_calls current i info info.type);
    } in
    let status = release_status ext_close i info.type in
    if status == 0
    then (0, record s' { allocated = λ j. if j == i then false else s.allocated j })
    else fails status s'

-- The descriptor leaves the table, and its stream has one less.
unfoldable pub drop_ptr : ℕ → StreamPtr → State → State
drop_ptr fd ptr s =
    let info = s.stream ptr.info in
    record s {
      fd_table = unlink fd s.fd_table;
      stream = with_stream ptr.info (record info { ref_count = sub32 info.ref_count 1 }) s.stream;
      calls =
          s.calls
          ++ (if is_file info.type && s_ischr info.mode
              then device_char_close ptr.info ∷ []
              else []);
    }

-- `current` tells whether `process` is the current one.
unfoldable pub sys_close_int : (ext_close : ℕ → ℕ) → (current : Bool) → ℕ → State → ℕ × State
sys_close_int ext_close current fd s = elim (stream_get_ptr fd s.fd_table) [
  | none ↦ fails ebadf s
  | some ptr ↦
      let s' = drop_ptr fd ptr s in
      if (s'.stream ptr.info).ref_count == 0 then release ext_close current ptr.info s' else (0, s')
]

abbrev pub sys_close : (ext_close : ℕ → ℕ) → ℕ → State → ℕ × State
sys_close ext_close fd s = sys_close_int ext_close true fd s

-- A new descriptor for the stream comes to the end of the table.
unfoldable pub add_ptr : (info fd : ℕ) → State → ℕ × State
add_ptr info fd s =
    let old = s.stream info in
    (
      fd,
      record s {
        fd_table = s.fd_table ++ (record { id = fd; fd_flags = 0; info = info } ∷ []);
        stream = with_stream info (record old { ref_count = add32 old.ref_count 1 }) s.stream;
        calls =
            s.calls
            ++ (if is_file old.type && s_ischr old.mode then device_char_dup info ∷ [] else []);
      },
    )

-- What is open at the new number is closed.
abbrev pub close_open : (ext_close : ℕ → ℕ) → ℕ → State → State
close_open ext_close fd s = elim (stream_get_ptr fd s.fd_table) [
  | none ↦ s
  | some ptr ↦ (sys_close ext_close fd s).1
]

-- The rest of _sys_dup2: the number is claimed and memory is asked for.
unfoldable pub dup_to : (info fd : ℕ) → State → ℕ × State
dup_to info fd s =
    let s' = stream_claim_fd fd s in
    let (there, heap) = heapmm_alloc s'.heap in
    let s'' = record s' { heap = heap } in if there then add_ptr info fd s'' else fails emfile s''

unfoldable pub sys_dup2 : (ext_close : ℕ → ℕ) → (oldfd newfd : ℕ) → State → ℕ × State
sys_dup2 ext_close oldfd newfd s = elim (stream_get_ptr oldfd s.fd_table) [
  | none ↦ fails ebadf s
  | some oldptr ↦
      if below_zero newfd
      then fails ebadf s
      else dup_to oldptr.info newfd (close_open ext_close newfd s)
]

unfoldable pub sys_dup : (ext_close : ℕ → ℕ) → ℕ → State → ℕ × State
sys_dup ext_close oldfd s =
    let (newfd, s') = stream_alloc_fd s in
    if newfd == minus_one then fails emfile s' else sys_dup2 ext_close oldfd newfd s'

-- The commands of fcntl; `other` stands for those without a case.
pub data FcntlCommand : Type 0 where
  f_dupfd : FcntlCommand
  f_getfd : FcntlCommand
  f_setfd : FcntlCommand
  f_getfl : FcntlCommand
  f_setfl : FcntlCommand
  other : FcntlCommand

-- `O_APPEND | FASYNC | O_NONBLOCK`.
abbrev pub settable : ℕ
settable = 16456

-- The flags of the first descriptor with the number are set.
unfoldable pub set_fd_flags : (fd flags : ℕ) → List StreamPtr → List StreamPtr
set_fd_flags fd flags [] = []
set_fd_flags fd flags (ptr ∷ table) =
    let rest = set_fd_flags fd flags table in
    if ptr.id == fd then record ptr { fd_flags = flags } ∷ table else ptr ∷ rest

unfoldable pub fcntl_ptr :
    (ext_close : ℕ → ℕ) → StreamPtr → (fd : ℕ) → FcntlCommand → (arg : ℕ) → State → ℕ × State
fcntl_ptr ext_close ptr fd f_dupfd arg s = elim (stream_get_ptr arg s.fd_table) [
  | none ↦ sys_dup2 ext_close fd arg s
  | some used ↦ sys_dup ext_close fd s
]
fcntl_ptr ext_close ptr fd f_getfd arg s = (ptr.fd_flags, s)
fcntl_ptr ext_close ptr fd f_setfd arg s =
    (0, record s { fd_table = set_fd_flags fd arg s.fd_table })
fcntl_ptr ext_close ptr fd f_getfl arg s = ((s.stream ptr.info).flags, s)
fcntl_ptr ext_close ptr fd f_setfl arg s =
    let info = s.stream ptr.info in
    let kept = bit_and info.flags (minus_one - settable) in
    (
      0,
      record s {
        stream =
            with_stream ptr.info (record info { flags = bit_or kept (bit_and arg settable) })
              s.stream;
      },
    )
fcntl_ptr ext_close ptr fd other arg s = (0, s)

unfoldable pub sys_fcntl :
    (ext_close : ℕ → ℕ) → (fd : ℕ) → FcntlCommand → (arg : ℕ) → State → ℕ × State
sys_fcntl ext_close fd cmd arg s = elim (stream_get_ptr fd s.fd_table) [
  | none ↦ fails ebadf s
  | some ptr ↦ fcntl_ptr ext_close ptr fd cmd arg s
]

-- The table of a child, and whether all of it has been copied. The copies count as descriptors of another
-- process.
unfoldable pub copy_ptrs : List StreamPtr → State → Bool × State
copy_ptrs [] s = (true, s)
copy_ptrs (ptr ∷ ptrs) s =
    let (there, heap) = heapmm_alloc s.heap in
    let old = s.stream ptr.info in
    let s' = record s {
      heap = heap;
      others = s.others ++ (record ptr { fd_flags = 0 } ∷ []);
      stream = with_stream ptr.info (record old { ref_count = add32 old.ref_count 1 }) s.stream;
    } in
    let rest = copy_ptrs ptrs s' in if there then rest else (false, record s { heap = heap })

abbrev pub stream_copy_fd_table : State → Bool × State
stream_copy_fd_table s = copy_ptrs s.fd_table s

abbrev pub stream_exec_iterator : StreamPtr → Bool
stream_exec_iterator ptr = not (bit_and ptr.fd_flags fd_cloexec == 0)

-- llist_iterate_select: the first descriptor that is selected.
unfoldable pub select : (StreamPtr → Bool) → List StreamPtr → Option StreamPtr
select test [] = none
select test (ptr ∷ table) = let rest = select test table in if test ptr then some ptr else rest

-- The loops that close what is selected, on fuel; `none` where it runs out.
unfoldable pub close_selected :
    (ext_close : ℕ → ℕ) → (current : Bool) → (StreamPtr → Bool) → (fuel : ℕ) → State → Option State
close_selected ext_close current test zero s = none
close_selected ext_close current test (suc fuel) s = elim (select test s.fd_table) [
  | none ↦ some s
  | some ptr ↦
      close_selected ext_close current test fuel (sys_close_int ext_close current ptr.id s).1
]

abbrev pub stream_do_close_on_exec : (ext_close : ℕ → ℕ) → State → Option State
stream_do_close_on_exec ext_close s =
    close_selected ext_close true stream_exec_iterator (suc (length s.fd_table)) s

abbrev pub stream_do_close_all : (ext_close : ℕ → ℕ) → (current : Bool) → State → Option State
stream_do_close_all ext_close current s =
    close_selected ext_close current (λ ptr. true) (suc (length s.fd_table)) s
