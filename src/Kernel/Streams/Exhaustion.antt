-- ===== src/Kernel/Streams/Exhaustion.antt =====
-- The numbers that _sys_dup gives.
use posnk.Base.{ℕ, ◌+◌, ◌-◌, ◌^◌, ◌≡◌, refl, true, some, arith, inl, inr, Bool-cases, Option-cases}
use posnk.Kernel.Streams.{
  State, StreamPtr, ebadf, minus_one, below_zero, at_least, stream_get_ptr, fails, stream_alloc_fd,
  stream_claim_fd, heapmm_alloc,
}
use posnk.Kernel.Streams.Files.{close_open, add_ptr, dup_to, sys_dup2, sys_dup}

abbrev pub int_max : ℕ
int_max = 2 ^ 31 - 1

sys_dup2-negative :
    (ext_close : ℕ → ℕ) (oldfd newfd : ℕ) (s : State)
    → below_zero newfd ≡ true
    → sys_dup2 ext_close oldfd newfd s ≡ fails ebadf s
unfolding sys_dup2
sys_dup2-negative ext_close oldfd newfd s negative =
    elim (Option-cases (stream_get_ptr oldfd s.fd_table)) [
      | inl missing ↦ rw (sys_dup2, missing) refl
      | inr (ptr, there) ↦ rw (sys_dup2, there, negative) refl
    ]

-- Where the counter is the least `int`, it is a number that no descriptor may have.
sys_dup_exhausted :
    (ext_close : ℕ → ℕ) (fd : ℕ) (s : State)
    → s.fd_ctr ≡ 2 ^ 31
    → ((sys_dup ext_close fd s).0 ≡ minus_one) × ((sys_dup ext_close fd s).1.syscall_errno ≡ ebadf)
unfolding sys_dup stream_alloc_fd
sys_dup_exhausted ext_close fd s top =
    let s' : State = record s { fd_ctr = 2 ^ 31 + 1 } in
    let fail = sys_dup2-negative ext_close fd (2 ^ 31) s' refl in rw (top, fail) (refl, refl)

-- Memory or not, the number is claimed.
dup_to-fd_ctr : (info : ℕ) (s : State) → (dup_to info int_max s).1.fd_ctr ≡ 2 ^ 31
unfolding dup_to add_ptr stream_claim_fd
dup_to-fd_ctr info s =
    let most : at_least int_max s.fd_ctr ≡ true = ground arith in
    elim (Bool-cases (heapmm_alloc s.heap).0) [
      | inl memory ↦ rw (most, memory) refl
      | inr none_left ↦ rw (most, none_left) refl
    ]

-- After an open descriptor has been duplicated to the number INT_MAX, or there was no memory for it, no
-- descriptor can be duplicated with _sys_dup: it gives -1, with EBADF, for every number.
pub sys_dup2_exhausts :
    (ext_close : ℕ → ℕ) (oldfd fd : ℕ) (ptr : StreamPtr) (s : State)
    → stream_get_ptr oldfd s.fd_table ≡ some ptr
    → let s' = (sys_dup2 ext_close oldfd int_max s).1 in
      let (result, s'') = sys_dup ext_close fd s' in
      (result ≡ minus_one) × (s''.syscall_errno ≡ ebadf)
unfolding sys_dup2
sys_dup2_exhausts ext_close oldfd fd ptr s there =
    let top : (sys_dup2 ext_close oldfd int_max s).1.fd_ctr ≡ 2 ^ 31 =
      rw (sys_dup2, there) (dup_to-fd_ctr ptr.info (close_open ext_close int_max s)) in
    sys_dup_exhausted ext_close fd (sys_dup2 ext_close oldfd int_max s).1 top
