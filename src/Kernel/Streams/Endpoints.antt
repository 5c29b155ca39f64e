-- ===== src/Kernel/Streams/Endpoints.antt =====
-- kernel/streams.c: _sys_pipe2. `made` tells whether pipe_create gives a pipe; `r` and `w` are the addresses
-- that heapmm_alloc gives for the two streams.
use posnk.Base.{
  ℕ, ◌+◌, ◌-◌, ◌^◌, ◌==◌, ◌<◌, ◌≡◌, ◌≢◌, refl, sym, ap, ◌∙◌, not, if◌then◌else◌, add32, Bool, true,
  false, List, [], ◌∷◌, ◌++◌, arith, inl, inr, Bool-cases, bit_and, bit_or, ne→==, ==_refl, ==→eq,
}
use posnk.Kernel.Streams.{
  State, StreamInfo, StreamPtr, type_pipe, free_pipe, open_pipe_read, open_pipe_write, emfile,
  minus_one, fd_cloexec, with_stream, stream_alloc_fd, heapmm_alloc,
}
use posnk.Kernel.Streams.Counting.{refs, refs-append, IsCounted}

abbrev pub o_cloexec : ℕ
o_cloexec = 2 ^ 18

abbrev pub o_nonblock : ℕ
o_nonblock = 2 ^ 14

abbrev pub o_rdonly : ℕ
o_rdonly = 0

abbrev pub o_wronly : ℕ
o_wronly = 1

abbrev pub enomem : ℕ
enomem = 12

abbrev pub einval : ℕ
einval = 22

-- `flags & O_CLOEXEC`, and the flags without it.
abbrev pub closes_on_exec : ℕ → Bool
closes_on_exec flags = not (bit_and flags o_cloexec == 0)

abbrev pub without_cloexec : ℕ → ℕ
without_cloexec flags = bit_and flags (minus_one - o_cloexec)

-- The four calls of heapmm_alloc, up to the first that fails.
unfoldable pub allocations : List Bool → Bool × List Bool
allocations heap =
    let (a, h1) = heapmm_alloc heap in
    let (b, h2) = heapmm_alloc h1 in
    let (c, h3) = heapmm_alloc h2 in
    let (d, h4) = heapmm_alloc h3 in
    if not a
    then (false, h1)
    else if not b
    then (false, h2)
    else if not c
    then (false, h3)
    else (d, h4)

-- One end of the pipe.
abbrev pub endpoint : (flags mode : ℕ) → (created : Bool) → StreamInfo
endpoint flags mode created = record {
  type = type_pipe;
  ref_count = 1;
  flags = flags;
  mode = mode;
  poll_created = created;
}

abbrev pub end_ptr : (flags fd info : ℕ) → StreamPtr
end_ptr flags fd info = record {
  id = fd;
  fd_flags = if closes_on_exec flags then fd_cloexec else 0;
  info = info;
}

-- The ends are filled out and come into the table. The head of the list of polls is set for the end to
-- read, twice; that of the other end keeps what the memory held.
unfoldable pub open_ends : (r w flags fd0 fd1 : ℕ) → State → State
open_ends r w flags fd0 fd1 s =
    let kept = without_cloexec flags in
    let read_end = endpoint (bit_or kept o_rdonly) (s.stream r).mode true in
    let write_end = endpoint (bit_or kept o_wronly) (s.stream w).mode (s.stream w).poll_created in
    record s {
      fd_table = s.fd_table ++ (end_ptr flags fd0 r ∷ end_ptr flags fd1 w ∷ []);
      stream = with_stream w write_end (with_stream r read_end s.stream);
      allocated = λ j. if j == r then true else if j == w then true else s.allocated j;
      calls = s.calls ++ (open_pipe_read r ∷ open_pipe_write w ∷ []);
    }

-- The result, what `pipefd` then holds, and the state. The labels `_bailout` free what has been allocated.
unfoldable pub sys_pipe2 :
    (made : Bool) → (r w : ℕ) → (pipefd : ℕ × ℕ) → (flags : ℕ) → State → ℕ × (ℕ × ℕ) × State
sys_pipe2 made r w pipefd flags s =
    let (fd0, s1) = stream_alloc_fd s in
    let (fd1, s2) = stream_alloc_fd s1 in
    let (there, heap) = allocations s2.heap in
    let s3 : State = record s2 { heap = heap } in
    let freed : State = record s3 { calls = s3.calls ++ (free_pipe r ∷ []) } in
    if fd0 == minus_one
    then (minus_one, (fd0, pipefd.1), record s1 { syscall_errno = emfile })
    else if fd1 == minus_one
    then (minus_one, (fd0, fd1), record s2 { syscall_errno = emfile })
    else if not made
    then (minus_one, (fd0, fd1), record s2 { syscall_errno = enomem })
    else if not there
    then (minus_one, (fd0, fd1), record freed { syscall_errno = enomem })
    else if not (bit_and (without_cloexec flags) (minus_one - o_nonblock) == 0)
    then (minus_one, (fd0, fd1), record freed { syscall_errno = einval })
    else (0, (fd0, fd1), open_ends r w flags fd0 fd1 s3)

open_ends-IsCounted :
    (r w flags fd0 fd1 : ℕ) (s : State)
    → IsCounted s
    → s.allocated r ≡ false
    → s.allocated w ≡ false
    → r ≢ w
    → IsCounted (open_ends r w flags fd0 fd1 s)
unfolding IsCounted open_ends refs
open_ends-IsCounted r w flags fd0 fd1 s ok fresh_r fresh_w ne i =
    let new = end_ptr flags fd0 r ∷ end_ptr flags fd1 w ∷ [] in
    let more = refs-append i s.fd_table new in
    let t = refs i (s.fd_table ++ new) in
    elim (Bool-cases (i == r)) [
      | inl at_r ↦
          let eq = ==→eq i r at_r in
          let other : (i == w) ≡ false = ne→== i w (λ e. ne (sym eq ∙ e)) in
          let none_yet : refs i s.fd_table + refs i s.others ≡ 0 =
            ok i ∙ rw (ap s.allocated eq ∙ fresh_r) refl in
          let one : t ≡ refs i s.fd_table + 1 = more ∙ rw (at_r, other) (omega arith) in
          rw (at_r, other) (omega (arith, none_yet, one))
      | inr off_r ↦ elim (Bool-cases (i == w)) [
        | inl at_w ↦
            let eq = ==→eq i w at_w in
            let none_yet : refs i s.fd_table + refs i s.others ≡ 0 =
              ok i ∙ rw (ap s.allocated eq ∙ fresh_w) refl in
            let one : t ≡ refs i s.fd_table + 1 = more ∙ rw (off_r, at_w) (omega arith) in
            rw (off_r, at_w) (omega (arith, none_yet, one))
        | inr off_w ↦
            let same : t ≡ refs i s.fd_table = more ∙ rw (off_r, off_w) (omega arith) in
            let now = ok i in rw (off_r, off_w) (omega (arith, now, same))
      ]
    ]

-- A new number changes nothing that is counted, with any memory left.
numbered-IsCounted :
    (s : State)
    → IsCounted s
    → IsCounted (stream_alloc_fd s).1 × ((stream_alloc_fd s).1.allocated ≡ s.allocated)
unfolding IsCounted stream_alloc_fd
numbered-IsCounted s ok = elim (Bool-cases (add32 s.fd_ctr 1 == 0)) [
  | inl over ↦ rw over (ok, refl)
  | inr fine ↦ rw fine (ok, refl)
]

changed-IsCounted :
    (heap : List Bool) (s : State) → IsCounted s → IsCounted (record s { heap = heap })
unfolding IsCounted
changed-IsCounted heap s ok = ok

stream_alloc_fd_below :
    (s : State)
    → s.fd_ctr < 2 ^ 31
    → stream_alloc_fd s ≡ (s.fd_ctr, record s { fd_ctr = s.fd_ctr + 1 })
unfolding stream_alloc_fd
stream_alloc_fd_below s low =
    let up : add32 s.fd_ctr 1 ≡ s.fd_ctr + 1 = omega arith in
    let more : (s.fd_ctr + 1 == 0) ≡ false = ground arith in rw (up, more) refl

-- Every counter is the number of the descriptors of its stream after _sys_pipe2, on all its branches, if
-- it was before, where the two streams come to different addresses at which there is none.
pub sys_pipe2-IsCounted :
    (made : Bool) (r w : ℕ) (pipefd : ℕ × ℕ) (flags : ℕ) (s : State)
    → IsCounted s
    → s.allocated r ≡ false
    → s.allocated w ≡ false
    → r ≢ w
    → IsCounted (sys_pipe2 made r w pipefd flags s).2
unfolding IsCounted sys_pipe2
sys_pipe2-IsCounted made r w pipefd flags s ok fresh_r fresh_w ne =
    let (fd0, s1) = stream_alloc_fd s in
    let (ok1, same1) = numbered-IsCounted s ok in
    let (fd1, s2) = stream_alloc_fd s1 in
    let (ok2, same2) = numbered-IsCounted s1 ok1 in
    let (there, heap) = allocations s2.heap in
    let s3 : State = record s2 { heap = heap } in
    let fresh : (a : ℕ) → s.allocated a ≡ false → s3.allocated a ≡ false =
      λ a free. ap (λ (f : ℕ → Bool). f a) (same2 ∙ same1) ∙ free in
    let opened =
      open_ends-IsCounted r w flags fd0 fd1 s3 (changed-IsCounted heap s2 ok2) (fresh r fresh_r)
        (fresh w fresh_w) ne in
    let wrong = not (bit_and (without_cloexec flags) (minus_one - o_nonblock) == 0) in
    elim (Bool-cases (fd0 == minus_one)) [
      | inl e ↦ rw e ok1
      | inr e0 ↦ elim (Bool-cases (fd1 == minus_one)) [
        | inl e ↦ rw (e0, e) ok2
        | inr e1 ↦ elim (Bool-cases made) [
          | inr e ↦ rw (e0, e1, e) ok2
          | inl e2 ↦ elim (Bool-cases there) [
            | inr e ↦ rw (e0, e1, e2, e) ok2
            | inl e3 ↦ elim (Bool-cases wrong) [
              | inl e ↦ rw (e0, e1, e2, e3, e) ok2
              | inr e ↦ rw (e0, e1, e2, e3, e) opened
            ]
          ]
        ]
      ]
    ]

-- With a pipe, memory for its ends, a counter that is below INT_MAX - 1, and no flag but O_CLOEXEC and
-- O_NONBLOCK, _sys_pipe2 succeeds: the next two numbers come to the end of the table, the first with the
-- end to read and the second with the end to write. But the head of the list of polls of the end to
-- write has not been set: it is what the memory of that stream held.
pub sys_pipe2_lem :
    (r w : ℕ) (pipefd : ℕ × ℕ) (flags : ℕ) (s : State)
    → s.fd_ctr < 2 ^ 31 - 2
    → (allocations s.heap).0 ≡ true
    → bit_and (without_cloexec flags) (minus_one - o_nonblock) ≡ 0
    → r ≢ w
    → let (result, fds, s') = sys_pipe2 true r w pipefd flags s in
      (result ≡ 0)
      × (fds ≡ (s.fd_ctr, s.fd_ctr + 1))
      × (s'.fd_table
          ≡ s.fd_table ++ (end_ptr flags s.fd_ctr r ∷ end_ptr flags (s.fd_ctr + 1) w ∷ []))
      × ((s'.stream r).flags ≡ bit_or (without_cloexec flags) o_rdonly)
      × ((s'.stream w).flags ≡ bit_or (without_cloexec flags) o_wronly)
      × ((s'.stream w).poll_created ≡ (s.stream w).poll_created)
unfolding sys_pipe2 open_ends
sys_pipe2_lem r w pipefd flags s low memory plain ne =
    let first = stream_alloc_fd_below s (omega (arith, low)) in
    let s1 : State = record s { fd_ctr = s.fd_ctr + 1 } in
    let second = stream_alloc_fd_below s1 (omega (arith, low)) in
    let valid0 : (s.fd_ctr == minus_one) ≡ false = ground arith in
    let valid1 : (s.fd_ctr + 1 == minus_one) ≡ false = ground arith in
    rw (first, second, valid0, valid1, memory, plain)
      (
        refl,
        refl,
        refl,
        rw (ne→== r w ne, ==_refl r) refl,
        rw (==_refl w) refl,
        rw (==_refl w) refl,
      )
