-- ===== src/Kernel/Streams/Lookups.antt =====
-- What a duplicate refers to.
use posnk.Base.{
  ℕ, ◌^◌, ◌==◌, ◌<◌, ◌≡◌, ◌≢◌, refl, sym, ap, ◌∙◌, Bool, true, false, none, some, List, [], ◌∷◌,
  ◌++◌, arith, inl, inr, Bool-cases, ==→eq, ==→ne, ne→==, ==_refl,
}
use posnk.Kernel.Streams.{
  StreamPtr, State, below_zero, at_least, stream_get_ptr, unlink, stream_claim_fd, heapmm_alloc,
}
use posnk.Kernel.Streams.Files.{
  release, release_status, drop_ptr, sys_close_int, add_ptr, close_open, dup_to, sys_dup2,
}
use posnk.Kernel.Streams.Counting.{get_here, get_there, get_empty}
use posnk.Kernel.Streams.Tables.{stream_get_ptr-unlink, close_open-table}
use posnk.Kernel.Streams.Selecting.{IsUnique, unlink-IsUnique}

-- In a table without repeated numbers, what is unlinked is gone.
stream_get_ptr-unlinked :
    (fd : ℕ) (table : List StreamPtr) → IsUnique table → stream_get_ptr fd (unlink fd table) ≡ none
unfolding unlink IsUnique
stream_get_ptr-unlinked fd [] u = get_empty fd
stream_get_ptr-unlinked fd (x ∷ table) u = elim (Bool-cases (x.id == fd)) [
  | inl here ↦ rw here (ap (λ (n : ℕ). stream_get_ptr n table) (sym (==→eq x.id fd here)) ∙ u.0)
  | inr off ↦ rw off (get_there fd x (unlink fd table) off ∙ stream_get_ptr-unlinked fd table u.1)
]

-- A descriptor at the end is found where there is none before it.
stream_get_ptr-end :
    (ptr : StreamPtr) (table : List StreamPtr)
    → stream_get_ptr ptr.id table ≡ none
    → stream_get_ptr ptr.id (table ++ (ptr ∷ [])) ≡ some ptr
stream_get_ptr-end ptr [] e = get_here ptr.id ptr [] (==_refl ptr.id)
stream_get_ptr-end ptr (x ∷ table) e = elim (Bool-cases (x.id == ptr.id)) [
  | inl here ↦ absurd (cc (sym (get_here ptr.id x table here) ∙ e))
  | inr off ↦
      get_there ptr.id x (table ++ (ptr ∷ [])) off
      ∙ stream_get_ptr-end ptr table (sym (get_there ptr.id x table off) ∙ e)
]

-- The other numbers are found as before.
stream_get_ptr-before :
    (fd : ℕ) (ptr : StreamPtr) (table : List StreamPtr)
    → fd ≢ ptr.id
    → stream_get_ptr fd (table ++ (ptr ∷ [])) ≡ stream_get_ptr fd table
stream_get_ptr-before fd ptr [] ne = get_there fd ptr [] (ne→== ptr.id fd (λ e. ne (sym e)))
stream_get_ptr-before fd ptr (x ∷ table) ne = elim (Bool-cases (x.id == fd)) [
  | inl here ↦ get_here fd x (table ++ (ptr ∷ [])) here ∙ sym (get_here fd x table here)
  | inr off ↦
      get_there fd x (table ++ (ptr ∷ [])) off
      ∙ stream_get_ptr-before fd ptr table ne
      ∙ sym (get_there fd x table off)
]

end-IsUnique :
    (ptr : StreamPtr) (table : List StreamPtr)
    → IsUnique table
    → stream_get_ptr ptr.id table ≡ none
    → IsUnique (table ++ (ptr ∷ []))
unfolding IsUnique
end-IsUnique ptr [] u e = (get_empty ptr.id, tt)
end-IsUnique ptr (x ∷ table) u e = elim (Bool-cases (x.id == ptr.id)) [
  | inl here ↦ absurd (cc (sym (get_here ptr.id x table here) ∙ e))
  | inr off ↦ (
    stream_get_ptr-before x.id ptr table (==→ne x.id ptr.id off) ∙ u.0,
    end-IsUnique ptr table u.1 (sym (get_there ptr.id x table off) ∙ e),
  )
]

-- The descriptor that a duplicate gets.
abbrev pub duplicate : (info fd : ℕ) → StreamPtr
duplicate info fd = record { id = fd; fd_flags = 0; info = info }

dup_to-table :
    (info fd : ℕ) (s : State)
    → (heapmm_alloc s.heap).0 ≡ true
    → ((dup_to info fd s).0 ≡ fd)
      × ((dup_to info fd s).1.fd_table ≡ s.fd_table ++ (duplicate info fd ∷ []))
      × ((dup_to info fd s).1.allocated ≡ s.allocated)
unfolding dup_to add_ptr stream_claim_fd
dup_to-table info fd s memory = elim (Bool-cases (at_least fd s.fd_ctr)) [
  | inl up ↦ rw (up, memory) (refl, refl, refl)
  | inr low ↦ rw (low, memory) (refl, refl, refl)
]

-- A descriptor that is open is duplicated to another number, which is not negative, in a table in which
-- no number stands twice, and there is memory for it. Then _sys_dup2 gives the new number, at which
-- there is then a descriptor without flags for the same stream; every other number has the descriptor
-- that it had, and still no number stands twice.
pub sys_dup2_lem :
    (ext_close : ℕ → ℕ) (oldfd newfd fd : ℕ) (ptr : StreamPtr) (s : State)
    → IsUnique s.fd_table
    → stream_get_ptr oldfd s.fd_table ≡ some ptr
    → oldfd ≢ newfd
    → newfd < 2 ^ 31
    → (heapmm_alloc s.heap).0 ≡ true
    → fd ≢ newfd
    → let (result, s') = sys_dup2 ext_close oldfd newfd s in
      (result ≡ newfd)
      × (stream_get_ptr newfd s'.fd_table ≡ some (duplicate ptr.info newfd))
      × (stream_get_ptr fd s'.fd_table ≡ stream_get_ptr fd s.fd_table)
      × IsUnique s'.fd_table
unfolding sys_dup2
sys_dup2_lem ext_close oldfd newfd fd ptr s u there ne positive memory other =
    let new = duplicate ptr.info newfd in
    let t = unlink newfd s.fd_table in
    let closed = close_open ext_close newfd s in
    let valid : below_zero newfd ≡ false = ground arith in
    let (table, others, heap) = close_open-table ext_close newfd s in
    let memory' : (heapmm_alloc closed.heap).0 ≡ true =
      ap (λ (h : List Bool). (heapmm_alloc h).0) heap ∙ memory in
    let (result, after, allocated) = dup_to-table ptr.info newfd closed memory' in
    let after' : (dup_to ptr.info newfd closed).1.fd_table ≡ t ++ (new ∷ []) =
      after ∙ ap (λ (x : List StreamPtr). x ++ (new ∷ [])) table in
    let gone = stream_get_ptr-unlinked newfd s.fd_table u in
    rw (sys_dup2, there, valid)
      (
        result,
        rw after' (stream_get_ptr-end new t gone),
        rw after' (
            stream_get_ptr-before fd new t other ∙ stream_get_ptr-unlink newfd fd s.fd_table other),
        rw after' (end-IsUnique new t (unlink-IsUnique newfd s.fd_table u) gone),
      )

-- The stream of the last descriptor is freed.
close_last :
    (ext_close : ℕ → ℕ) (fd : ℕ) (ptr : StreamPtr) (s : State)
    → stream_get_ptr fd s.fd_table ≡ some ptr
    → (s.stream ptr.info).ref_count ≡ 1
    → release_status ext_close ptr.info (s.stream ptr.info).type ≡ 0
    → (close_open ext_close fd s).allocated ptr.info ≡ false
unfolding sys_close_int drop_ptr release
close_last ext_close fd ptr s there one closes =
    rw (close_open, there, sys_close_int, there, ==_refl ptr.info, one, closes, ==_refl ptr.info)
      refl

-- The one descriptor of a stream is duplicated to its own number, in a table in which no number stands
-- twice, with memory for the duplicate and, for an external stream, a close that succeeds. Then
-- _sys_dup2 gives the number, and the descriptor that is there then refers to the stream, but the stream
-- has been freed.
pub sys_dup2_itself :
    (ext_close : ℕ → ℕ) (fd : ℕ) (ptr : StreamPtr) (s : State)
    → IsUnique s.fd_table
    → stream_get_ptr fd s.fd_table ≡ some ptr
    → fd < 2 ^ 31
    → (heapmm_alloc s.heap).0 ≡ true
    → (s.stream ptr.info).ref_count ≡ 1
    → release_status ext_close ptr.info (s.stream ptr.info).type ≡ 0
    → let (result, s') = sys_dup2 ext_close fd fd s in
      (result ≡ fd)
      × (stream_get_ptr fd s'.fd_table ≡ some (duplicate ptr.info fd))
      × (s'.allocated ptr.info ≡ false)
unfolding sys_dup2
sys_dup2_itself ext_close fd ptr s u there positive memory one closes =
    let new = duplicate ptr.info fd in
    let t = unlink fd s.fd_table in
    let closed = close_open ext_close fd s in
    let valid : below_zero fd ≡ false = ground arith in
    let (table, others, heap) = close_open-table ext_close fd s in
    let memory' : (heapmm_alloc closed.heap).0 ≡ true =
      ap (λ (h : List Bool). (heapmm_alloc h).0) heap ∙ memory in
    let (result, after, allocated) = dup_to-table ptr.info fd closed memory' in
    let after' : (dup_to ptr.info fd closed).1.fd_table ≡ t ++ (new ∷ []) =
      after ∙ ap (λ (x : List StreamPtr). x ++ (new ∷ [])) table in
    rw (sys_dup2, there, valid)
      (
        result,
        rw after' (stream_get_ptr-end new t (stream_get_ptr-unlinked fd s.fd_table u)),
        ap (λ (f : ℕ → Bool). f ptr.info) allocated
            ∙ close_last ext_close fd ptr s there one closes,
      )
