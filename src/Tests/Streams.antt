-- ===== src/Tests/Streams.antt =====
-- Descriptors.
use posnk.Base.{
  ℕ, ◌≡◌, refl, true, false, ◌==◌, if◌then◌else◌, some, [], ◌∷◌, ◌++◌, map, arith, inl, inr,
  Bool-cases, ne→==, ==→eq,
}
use posnk.Kernel.Streams.{
  StreamPtr, StreamInfo, State, type_file, type_pipe, stream_get_ptr, heapmm_alloc, minus_one,
  ebadf,
}
use posnk.Kernel.Streams.Files.{
  sys_close_int, sys_dup2, stream_copy_fd_table, stream_do_close_on_exec, stream_do_close_all,
}
use posnk.Kernel.Streams.Endpoints.{
  sys_pipe2, sys_pipe2_lem, sys_pipe2-IsCounted, o_rdonly, o_wronly, end_ptr,
}
use posnk.Kernel.Streams.Counting.{refs, IsCounted, sys_close_int-IsCounted}
use posnk.Kernel.Streams.Duplicating.{sys_dup2-IsCounted}
use posnk.Kernel.Streams.Selecting.{IsUnique, stream_do_close_on_exec_lem, stream_do_close_all_lem}
use posnk.Kernel.Streams.Lookups.{duplicate, sys_dup2_lem, sys_dup2_itself}
use posnk.Kernel.Streams.Children.{
  inherited, stream_copy_fd_table-IsCounted, stream_copy_fd_table_lem,
}

abbrev file_3 : StreamPtr
file_3 = record { id = 3; fd_flags = 0; info = 70 }

abbrev pipe_4 : StreamPtr
pipe_4 = record { id = 4; fd_flags = 1; info = 80 }

-- A file at 3, which another process has too, and at 4 an end of a pipe that is closed on exec.
abbrev process : State
process = record {
  fd_table = file_3 ∷ pipe_4 ∷ [];
  fd_ctr = 5;
  others = record { id = 0; fd_flags = 0; info = 70 } ∷ [];
  stream = λ i.
      if i == 70
      then record { type = type_file; ref_count = 2; flags = 0; mode = 32768; poll_created = true }
      else record { type = type_pipe; ref_count = 1; flags = 1; mode = 0; poll_created = false };
  allocated = λ i. if i == 70 then true else if i == 80 then true else false;
  heap = true ∷ true ∷ true ∷ true ∷ [];
  syscall_errno = 0;
  calls = [];
}

abbrev closes : ℕ → ℕ
closes i = 0

process-IsCounted : IsCounted process
unfolding IsCounted refs
process-IsCounted i = elim (Bool-cases (i == 70)) [
  | inl e ↦
      let e' : (i == 80) ≡ false = ne→== i 80 λ same. absurd (omega (arith, same, ==→eq i 70 e)) in
      rw (e, e') refl
  | inr e ↦ elim (Bool-cases (i == 80)) [ inl e' ↦ rw (e, e') refl | inr e' ↦ rw (e, e') refl ]
]

process-IsUnique : IsUnique process.fd_table
unfolding IsUnique stream_get_ptr
process-IsUnique = (refl, (refl, tt))

sys_close_int-IsCounted_example : IsCounted (sys_close_int closes true 4 process).1
sys_close_int-IsCounted_example =
    sys_close_int-IsCounted closes true 4 process process-IsCounted (omega arith)

sys_dup2-IsCounted_example : IsCounted (sys_dup2 closes 3 4 process).1
sys_dup2-IsCounted_example =
    sys_dup2-IsCounted closes 3 4 process process-IsCounted (omega arith)
      (λ e. absurd (omega (arith, e)))

sys_dup2_lem_example :
    let (result, s') = sys_dup2 closes 3 4 process in
    (result ≡ 4)
    × (stream_get_ptr 4 s'.fd_table ≡ some (duplicate 70 4))
    × (stream_get_ptr 3 s'.fd_table ≡ some file_3)
    × IsUnique s'.fd_table
unfolding stream_get_ptr heapmm_alloc
sys_dup2_lem_example =
    sys_dup2_lem closes 3 4 3 file_3 process process-IsUnique refl (λ e. absurd (omega (arith, e)))
      (omega arith) refl (λ e. absurd (omega (arith, e)))

sys_dup2_itself_example :
    let (result, s') = sys_dup2 closes 4 4 process in
    (result ≡ 4)
    × (stream_get_ptr 4 s'.fd_table ≡ some (duplicate 80 4))
    × (s'.allocated 80 ≡ false)
unfolding stream_get_ptr heapmm_alloc
sys_dup2_itself_example =
    sys_dup2_itself closes 4 pipe_4 process process-IsUnique refl (omega arith) refl refl refl

stream_copy_fd_table_lem_example :
    let (done, s') = stream_copy_fd_table process in
    (done ≡ true)
    × (s'.fd_table ≡ process.fd_table)
    × (s'.others ≡ process.others ++ map inherited process.fd_table)
unfolding posnk.Kernel.Streams.Children.enough heapmm_alloc
stream_copy_fd_table_lem_example =
    stream_copy_fd_table_lem process process-IsCounted (omega arith) refl

stream_do_close_on_exec_lem_example :
    (s' : State) × (stream_do_close_on_exec closes process ≡ some s') × (s'.fd_table ≡ file_3 ∷ [])
unfolding posnk.Kernel.Streams.Selecting.unselected
stream_do_close_on_exec_lem_example = stream_do_close_on_exec_lem closes process process-IsUnique

stream_do_close_all_lem_example :
    (s' : State) × (stream_do_close_all closes true process ≡ some s') × (s'.fd_table ≡ [])
stream_do_close_all_lem_example = stream_do_close_all_lem closes true process process-IsUnique

sys_pipe2_lem_example :
    let (result, fds, s') = sys_pipe2 true 90 91 (0, 0) 0 process in
    (result ≡ 0)
    × (fds ≡ (5, 6))
    × (s'.fd_table ≡ process.fd_table ++ (end_ptr 0 5 90 ∷ end_ptr 0 6 91 ∷ []))
    × ((s'.stream 90).flags ≡ 0)
    × ((s'.stream 91).flags ≡ 1)
    × ((s'.stream 91).poll_created ≡ false)
unfolding posnk.Kernel.Streams.Endpoints.allocations heapmm_alloc
sys_pipe2_lem_example =
    sys_pipe2_lem 90 91 (0, 0) 0 process (omega arith) refl refl (λ e. absurd (omega (arith, e)))
