-- ===== src/Kernel/Streams/Duplicating.antt =====
-- Counting the descriptors across _sys_dup2.
use posnk.Base.{
  ℕ, ◌+◌, ◌^◌, ◌==◌, ◌<◌, ◌≡◌, ◌≢◌, refl, sym, ap, ◌∙◌, Bool, true, some, List, [], ◌∷◌, ◌++◌,
  arith, inl, inr, Bool-cases, Option-cases, ==→eq,
}
use posnk.Kernel.Streams.{
  StreamInfo, State, ebadf, emfile, below_zero, at_least, stream_get_ptr, stream_claim_fd,
  heapmm_alloc,
}
use posnk.Kernel.Streams.Files.{add_ptr, close_open, dup_to, sys_dup2}
use posnk.Kernel.Streams.Counting.{
  refs, refs-append, IsCounted, Few, found-live, found-small, fails-IsCounted,
  sys_close_int-IsCounted,
}
use posnk.Kernel.Streams.Tables.{length-unlink, stream_get_ptr-unlink, close_open-table}

-- One descriptor and one count more.
add_ptr-IsCounted :
    (info fd : ℕ) (s : State)
    → IsCounted s
    → s.allocated info ≡ true
    → (s.stream info).ref_count < 2 ^ 31
    → IsCounted (add_ptr info fd s).1
unfolding IsCounted add_ptr refs
add_ptr-IsCounted info fd s ok live small i =
    let now = ok i in
    let more = refs-append i s.fd_table (record { id = fd; fd_flags = 0; info = info } ∷ []) in
    elim (Bool-cases (i == info)) [
      | inr that ↦
          let same : refs i (s.fd_table ++ (record { id = fd; fd_flags = 0; info = info } ∷ []))
              ≡ refs i s.fd_table =
            more ∙ rw that (omega arith) in
          rw that (omega (arith, now, same))
      | inl this ↦
          let one : refs i (s.fd_table ++ (record { id = fd; fd_flags = 0; info = info } ∷ []))
              ≡ refs i s.fd_table + 1 =
            more ∙ rw this (omega arith) in
          let eq = ==→eq i info this in
          let live' : s.allocated i ≡ true = ap s.allocated eq ∙ live in
          let now' : refs i s.fd_table + refs i s.others ≡ (s.stream i).ref_count =
            now ∙ rw live' refl in
          let same : (s.stream info).ref_count ≡ (s.stream i).ref_count =
            ap (λ (j : ℕ). (s.stream j).ref_count) (sym eq) in
          rw (this, live') (omega (arith, now', one, same, small))
    ]

-- Claiming a number and asking for memory change nothing that is counted.
claimed-IsCounted :
    (fd : ℕ) (heap : List Bool) (s : State)
    → IsCounted s
    → IsCounted (record (stream_claim_fd fd s) { heap = heap })
unfolding IsCounted stream_claim_fd
claimed-IsCounted fd heap s ok i = elim (Bool-cases (at_least fd s.fd_ctr)) [
  | inl up ↦ rw up (ok i)
  | inr low ↦ rw low (ok i)
]

pub claimed-same :
    (fd : ℕ) (s : State)
    → ((stream_claim_fd fd s).stream ≡ s.stream)
      × ((stream_claim_fd fd s).allocated ≡ s.allocated)
      × ((stream_claim_fd fd s).fd_table ≡ s.fd_table)
unfolding stream_claim_fd
claimed-same fd s = elim (Bool-cases (at_least fd s.fd_ctr)) [
  | inl up ↦ rw up (refl, refl, refl)
  | inr low ↦ rw low (refl, refl, refl)
]

dup_to-IsCounted :
    (info fd : ℕ) (s : State)
    → IsCounted s
    → s.allocated info ≡ true
    → (s.stream info).ref_count < 2 ^ 31
    → IsCounted (dup_to info fd s).1
unfolding dup_to
dup_to-IsCounted info fd s ok live small =
    let (there, heap) = heapmm_alloc (stream_claim_fd fd s).heap in
    let s' : State = record (stream_claim_fd fd s) { heap = heap } in
    let (stream, allocated, table) = claimed-same fd s in
    let ok' = claimed-IsCounted fd heap s ok in
    elim (Bool-cases there) [
      | inl memory ↦ rw memory (
          add_ptr-IsCounted info fd s' ok' (ap (λ (f : ℕ → Bool). f info) allocated ∙ live)
            (omega (arith, ap (λ (f : ℕ → StreamInfo). (f info).ref_count) stream, small)))
      | inr none_left ↦ rw none_left (fails-IsCounted emfile s' ok')
    ]

close_open-IsCounted :
    (ext_close : ℕ → ℕ) (fd : ℕ) (s : State)
    → IsCounted s
    → Few s
    → IsCounted (close_open ext_close fd s)
close_open-IsCounted ext_close fd s ok small = elim (Option-cases (stream_get_ptr fd s.fd_table)) [
  | inl missing ↦ rw (close_open, missing) ok
  | inr (ptr, there) ↦ rw (close_open, there) (sys_close_int-IsCounted ext_close true fd s ok small)
]

pub sys_dup2-IsCounted :
    (ext_close : ℕ → ℕ) (oldfd newfd : ℕ) (s : State)
    → IsCounted s
    → Few s
    → oldfd ≢ newfd
    → IsCounted (sys_dup2 ext_close oldfd newfd s).1
unfolding sys_dup2
sys_dup2-IsCounted ext_close oldfd newfd s ok small ne =
    elim (Option-cases (stream_get_ptr oldfd s.fd_table)) [
      | inl missing ↦ rw (sys_dup2, missing) (fails-IsCounted ebadf s ok)
      | inr (ptr, there) ↦
          let s' = close_open ext_close newfd s in
          let (table, others, heap) = close_open-table ext_close newfd s in
          let ok' = close_open-IsCounted ext_close newfd s ok small in
          let there' : stream_get_ptr oldfd s'.fd_table ≡ some ptr =
            rw table (stream_get_ptr-unlink newfd oldfd s.fd_table ne ∙ there) in
          let small' : Few s' =
            rw (table, others) (omega (arith, small, length-unlink newfd s.fd_table)) in
          rw (sys_dup2, there)
            (elim (Bool-cases (below_zero newfd)) [
              | inl negative ↦ rw negative (fails-IsCounted ebadf s ok)
              | inr valid ↦ rw valid (
                  dup_to-IsCounted ptr.info newfd s' ok' (found-live oldfd s' ptr ok' there').0
                    (found-small oldfd s' ptr ok' small' there'))
            ])
    ]
