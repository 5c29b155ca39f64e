-- ===== src/Kernel/Streams/Children.antt =====
-- What a child gets of the descriptors of its parent.
use posnk.Base.{
  ℕ, ◌+◌, ◌^◌, ◌==◌, ◌<◌, ◌≡◌, refl, sym, ap, ◌∙◌, if◌then◌else◌, add32, Bool, true, false, List,
  [], ◌∷◌, ◌++◌, length, arith, inl, inr, Bool-cases, ==→eq, ==_refl,
}
use posnk.Kernel.Streams.{StreamPtr, State, with_stream, heapmm_alloc}
use posnk.Kernel.Streams.Files.{copy_ptrs, stream_copy_fd_table}
use posnk.Kernel.Streams.Counting.{refs, refs-append, refs-length, IsCounted, Few}
use posnk.Base.{map, All, length-append}
use mathlib.Core.List.{append-nil, append_assoc}

-- A descriptor as the child has it.
abbrev pub inherited : StreamPtr → StreamPtr
inherited ptr = record ptr { fd_flags = 0 }

-- All the descriptors refer to streams that are there.
refs-All :
    (s : State) (table : List StreamPtr)
    → ((i : ℕ) → 0 < refs i table → s.allocated i ≡ true)
    → All (λ (p : StreamPtr). s.allocated p.info ≡ true) table
unfolding refs
refs-All s [] live = tt
refs-All s (x ∷ table) live = (
  live x.info (rw (==_refl x.info) (omega arith)),
  refs-All s table λ i pos. live i (omega (arith, pos)),
)

-- One more descriptor of another process.
abbrev given : StreamPtr → List Bool → State → State
given ptr heap s =
    let old = s.stream ptr.info in
    record s {
      heap = heap;
      others = s.others ++ (inherited ptr ∷ []);
      stream = with_stream ptr.info (record old { ref_count = add32 old.ref_count 1 }) s.stream;
    }

given-IsCounted :
    (ptr : StreamPtr) (heap : List Bool) (s : State)
    → IsCounted s
    → Few s
    → s.allocated ptr.info ≡ true
    → IsCounted (given ptr heap s)
unfolding IsCounted refs
given-IsCounted ptr heap s ok small live i =
    let now = ok i in
    let more = refs-append i s.others (inherited ptr ∷ []) in
    elim (Bool-cases (i == ptr.info)) [
      | inr that ↦
          let same : refs i (s.others ++ (inherited ptr ∷ [])) ≡ refs i s.others =
            more ∙ rw that (omega arith) in
          rw that (omega (arith, now, same))
      | inl this ↦
          let one : refs i (s.others ++ (inherited ptr ∷ [])) ≡ refs i s.others + 1 =
            more ∙ rw this (omega arith) in
          let eq = ==→eq i ptr.info this in
          let live' : s.allocated i ≡ true = ap s.allocated eq ∙ live in
          let now' : refs i s.fd_table + refs i s.others ≡ (s.stream i).ref_count =
            now ∙ rw live' refl in
          let same : (s.stream ptr.info).ref_count ≡ (s.stream i).ref_count =
            ap (λ (j : ℕ). (s.stream j).ref_count) (sym eq) in
          rw (this, live')
            (omega
              (arith, now', one, same, small, refs-length i s.fd_table, refs-length i s.others))
    ]

unchanged-IsCounted :
    (heap : List Bool) (s : State) → IsCounted s → IsCounted (record s { heap = heap })
unfolding IsCounted
unchanged-IsCounted heap s ok = ok

-- There is memory for so many.
unfoldable pub enough : List StreamPtr → List Bool → Bool
enough [] heap = true
enough (ptr ∷ ptrs) heap =
    let (there, heap') = heapmm_alloc heap in
    let rest = enough ptrs heap' in if there then rest else false

copy_ptrs_lem :
    (ptrs : List StreamPtr) (s : State)
    → IsCounted s
    → length s.fd_table + length s.others + length ptrs < 2 ^ 31
    → All (λ (p : StreamPtr). s.allocated p.info ≡ true) ptrs
    → let (done, s') = copy_ptrs ptrs s in
      IsCounted s'
      × (s'.fd_table ≡ s.fd_table)
      × (done ≡ enough ptrs s.heap)
      × ((done ≡ true) → s'.others ≡ s.others ++ map inherited ptrs)
unfolding copy_ptrs enough
copy_ptrs_lem [] s ok small live = (ok, refl, refl, λ e. sym (append-nil s.others))
copy_ptrs_lem (ptr ∷ ptrs) s ok small live =
    let (there, heap) = heapmm_alloc s.heap in
    let s' = given ptr heap s in
    let longer : length s'.others ≡ length s.others + 1 =
      length-append s.others (inherited ptr ∷ []) in
    let (counts, table, done, others) =
      copy_ptrs_lem ptrs s' (given-IsCounted ptr heap s ok (omega (arith, small)) live.0)
        (omega (arith, small, longer)) live.1 in
    elim (Bool-cases there) [
      | inl memory ↦ rw memory (
        counts,
        table,
        done,
        λ e. others e ∙ append_assoc s.others (inherited ptr ∷ []) (map inherited ptrs),
      )
      | inr none_left ↦ rw none_left (unchanged-IsCounted heap s ok, refl, refl, λ e. absurd (cc e))
    ]

table-All :
    (s : State) → IsCounted s → All (λ (p : StreamPtr). s.allocated p.info ≡ true) s.fd_table
unfolding IsCounted
table-All s ok = refs-All s s.fd_table λ i pos. elim (Bool-cases (s.allocated i)) [
  | inl live ↦ live
  | inr freed ↦
      let now : refs i s.fd_table + refs i s.others ≡ 0 = ok i ∙ rw freed refl in
      absurd (omega (arith, pos, now))
]

-- Copying the table of a process for a child keeps every counter the number of the descriptors of its
-- stream, where the memory runs out in the middle too. There are fewer than 2 ^ 31 descriptors, with a
-- copy of the table.
pub stream_copy_fd_table-IsCounted :
    (s : State)
    → IsCounted s
    → length s.fd_table + length s.others + length s.fd_table < 2 ^ 31
    → IsCounted (stream_copy_fd_table s).1
stream_copy_fd_table-IsCounted s ok small = (copy_ptrs_lem s.fd_table s ok small (table-All s ok)).0

-- With memory for all descriptors, the child gets those of its parent in their order, each without its
-- flags, the parent keeps its own, and the function returns 1. Before, every counter is the number of
-- the descriptors of its stream, and there are fewer than 2 ^ 31 descriptors with a copy of the table.
pub stream_copy_fd_table_lem :
    (s : State)
    → IsCounted s
    → length s.fd_table + length s.others + length s.fd_table < 2 ^ 31
    → enough s.fd_table s.heap ≡ true
    → let (done, s') = stream_copy_fd_table s in
      (done ≡ true)
      × (s'.fd_table ≡ s.fd_table)
      × (s'.others ≡ s.others ++ map inherited s.fd_table)
stream_copy_fd_table_lem s ok small memory =
    let (counts, table, done, others) = copy_ptrs_lem s.fd_table s ok small (table-All s ok) in
    (done ∙ memory, table, others (done ∙ memory))
