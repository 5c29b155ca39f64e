-- ===== src/Kernel/Streams/Counting.antt =====
-- Counting the descriptors that refer to a stream, and closing.
use posnk.Base.{
  ℕ, ◌+◌, ◌^◌, ◌==◌, ◌<◌, ◌≤◌, ◌≡◌, refl, sym, ap, ◌∙◌, if◌then◌else◌, Bool, true, false, none,
  some, List, [], ◌∷◌, ◌++◌, length, arith, inl, inr, Bool-cases, Option-cases, ==→eq, ==_refl,
}
use posnk.Kernel.Streams.{StreamPtr, State, ebadf, stream_get_ptr, unlink, fails}
use posnk.Kernel.Streams.Files.{release, release_status, drop_ptr, sys_close_int}

-- The descriptors in a table that refer to the stream.
unfoldable pub refs : ℕ → List StreamPtr → ℕ
refs i [] = 0
refs i (ptr ∷ table) = (if i == ptr.info then 1 else 0) + refs i table

-- What the counter of a stream must be: 0 where the stream has been freed.
abbrev pub counted : State → ℕ → ℕ
counted s i = if s.allocated i then (s.stream i).ref_count else 0

unfoldable pub IsCounted : State → Type 0
IsCounted s = (i : ℕ) → refs i s.fd_table + refs i s.others ≡ counted s i

pub refs-append : (i : ℕ) (xs ys : List StreamPtr) → refs i (xs ++ ys) ≡ refs i xs + refs i ys
unfolding refs
refs-append i [] ys = omega arith
refs-append i (x ∷ xs) ys = omega (arith, refs-append i xs ys)

pub some_injective : {x y : StreamPtr} → some x ≡ some y → x ≡ y
some_injective e = cc e

pub get_here :
    (fd : ℕ) (x : StreamPtr) (table : List StreamPtr)
    → (x.id == fd) ≡ true
    → stream_get_ptr fd (x ∷ table) ≡ some x
unfolding stream_get_ptr
get_here fd x table here = rw here refl

pub get_there :
    (fd : ℕ) (x : StreamPtr) (table : List StreamPtr)
    → (x.id == fd) ≡ false
    → stream_get_ptr fd (x ∷ table) ≡ stream_get_ptr fd table
unfolding stream_get_ptr
get_there fd x table there = rw there refl

pub get_empty : (fd : ℕ) → stream_get_ptr fd [] ≡ none
unfolding stream_get_ptr
get_empty fd = refl

-- The descriptor that is found is one less for its stream, and none less for the others.
pub refs-unlink :
    (fd i : ℕ) (table : List StreamPtr) (ptr : StreamPtr)
    → stream_get_ptr fd table ≡ some ptr
    → refs i table ≡ (if i == ptr.info then 1 else 0) + refs i (unlink fd table)
unfolding refs unlink
refs-unlink fd i [] ptr e = absurd (cc (sym (get_empty fd) ∙ e))
refs-unlink fd i (x ∷ table) ptr e = elim (Bool-cases (x.id == fd)) [
  | inl here ↦
      let same : x ≡ ptr = some_injective (sym (get_here fd x table here) ∙ e) in
      rw here (ap (λ (p : StreamPtr). (if i == p.info then 1 else 0) + refs i table) same)
  | inr there ↦
      rw (sys_close_int, there)
        (omega (arith, refs-unlink fd i table ptr (sym (get_there fd x table there) ∙ e)))
]

-- The descriptor is at the number that was asked for.
pub stream_get_ptr-id :
    (fd : ℕ) (table : List StreamPtr) (ptr : StreamPtr)
    → stream_get_ptr fd table ≡ some ptr
    → ptr.id ≡ fd
stream_get_ptr-id fd [] ptr e = absurd (cc (sym (get_empty fd) ∙ e))
stream_get_ptr-id fd (x ∷ table) ptr e = elim (Bool-cases (x.id == fd)) [
  | inl here ↦
      let same : x ≡ ptr = some_injective (sym (get_here fd x table here) ∙ e) in
      ap (λ (p : StreamPtr). p.id) (sym same) ∙ ==→eq x.id fd here
  | inr there ↦ stream_get_ptr-id fd table ptr (sym (get_there fd x table there) ∙ e)
]

-- A call that fails at once changes nothing that is counted.
pub fails-IsCounted : (errno : ℕ) (s : State) → IsCounted s → IsCounted (fails errno s).1
unfolding IsCounted
fails-IsCounted errno s ok = ok

pub refs-length : (i : ℕ) (table : List StreamPtr) → refs i table ≤ length table
unfolding refs
refs-length i [] = omega arith
refs-length i (x ∷ table) = elim (Bool-cases (i == x.info)) [
  | inl this ↦ rw this (omega (arith, refs-length i table))
  | inr that ↦ rw that (omega (arith, refs-length i table))
]

-- That no counter can overflow: there are not 2 ^ 31 descriptors.
abbrev pub Few : State → Type 0
Few s = length s.fd_table + length s.others < 2 ^ 31

-- A descriptor that is found has a stream that is there, and counts.
pub found-live :
    (fd : ℕ) (s : State) (ptr : StreamPtr)
    → IsCounted s
    → stream_get_ptr fd s.fd_table ≡ some ptr
    → (s.allocated ptr.info ≡ true)
      × (refs ptr.info s.fd_table + refs ptr.info s.others ≡ (s.stream ptr.info).ref_count)
unfolding IsCounted
found-live fd s ptr ok e =
    let one : refs ptr.info s.fd_table ≡ 1 + refs ptr.info (unlink fd s.fd_table) =
      refs-unlink fd ptr.info s.fd_table ptr e ∙ rw (==_refl ptr.info) refl in
    elim (Bool-cases (s.allocated ptr.info)) [
      | inl live ↦ (live, ok ptr.info ∙ rw live refl)
      | inr freed ↦
          let now : refs ptr.info s.fd_table + refs ptr.info s.others ≡ 0 =
            ok ptr.info ∙ rw freed refl in
          absurd (omega (arith, now, one))
    ]

pub found-small :
    (fd : ℕ) (s : State) (ptr : StreamPtr)
    → IsCounted s
    → Few s
    → stream_get_ptr fd s.fd_table ≡ some ptr
    → (s.stream ptr.info).ref_count < 2 ^ 31
found-small fd s ptr ok small e = omega (
  arith,
  (found-live fd s ptr ok e).1,
  small,
  refs-length ptr.info s.fd_table,
  refs-length ptr.info s.others,
)

-- One descriptor less of the stream, in the table and in the counter.
drop_ptr-IsCounted :
    (fd : ℕ) (ptr : StreamPtr) (s : State)
    → IsCounted s
    → (s.stream ptr.info).ref_count < 2 ^ 31
    → stream_get_ptr fd s.fd_table ≡ some ptr
    → IsCounted (drop_ptr fd ptr s)
unfolding IsCounted drop_ptr
drop_ptr-IsCounted fd ptr s ok small e i =
    let one = refs-unlink fd i s.fd_table ptr e in
    let now = ok i in
    elim (Bool-cases (i == ptr.info)) [
      | inr that ↦
          let one' : refs i s.fd_table ≡ refs i (unlink fd s.fd_table) =
            one ∙ rw that (omega arith) in
          rw that (omega (arith, now, one'))
      | inl this ↦
          let one' : refs i s.fd_table ≡ 1 + refs i (unlink fd s.fd_table) = one ∙ rw this refl in
          elim (Bool-cases (s.allocated i)) [
            | inl live ↦
                let now' : refs i s.fd_table + refs i s.others ≡ (s.stream i).ref_count =
                  now ∙ rw live refl in
                let same : (s.stream ptr.info).ref_count ≡ (s.stream i).ref_count =
                  ap (λ (j : ℕ). (s.stream j).ref_count) (sym (==→eq i ptr.info this)) in
                rw (this, live) (omega (arith, now', one', same, small))
            | inr freed ↦
                let now' : refs i s.fd_table + refs i s.others ≡ 0 = now ∙ rw freed refl in
                absurd (omega (arith, now', one'))
          ]
    ]

module _ (ext_close : ℕ → ℕ) (current : Bool) where
  -- The stream that is freed has no descriptors.
  release-IsCounted :
      (i : ℕ) (s : State)
      → IsCounted s
      → (s.stream i).ref_count ≡ 0
      → IsCounted (release ext_close current i s).1
  unfolding IsCounted release
  release-IsCounted i s ok zero_refs =
      elim (Bool-cases (release_status ext_close i (s.stream i).type == 0)) [
        | inr failed ↦ rw failed ok
        | inl done ↦ rw done (λ j. elim (Bool-cases (j == i)) [
          | inl this ↦
              let none_left : counted s j ≡ 0 = elim (Bool-cases (s.allocated j)) [
                | inl live ↦
                    rw live (ap (λ (k : ℕ). (s.stream k).ref_count) (==→eq j i this) ∙ zero_refs)
                | inr freed ↦ rw freed refl
              ] in
              rw this (ok j ∙ none_left)
          | inr that ↦ rw that (ok j)
        ])
      ]

  pub sys_close_int-IsCounted :
      (fd : ℕ) (s : State)
      → IsCounted s
      → Few s
      → IsCounted (sys_close_int ext_close current fd s).1
  unfolding sys_close_int
  sys_close_int-IsCounted fd s ok small = elim (Option-cases (stream_get_ptr fd s.fd_table)) [
    | inl missing ↦ rw (sys_close_int, missing) (fails-IsCounted ebadf s ok)
    | inr (ptr, there) ↦
        let dropped = drop_ptr-IsCounted fd ptr s ok (found-small fd s ptr ok small there) there in
        rw (sys_close_int, there)
          (elim (Bool-cases (((drop_ptr fd ptr s).stream ptr.info).ref_count == 0)) [
            | inl last ↦
                rw last (release-IsCounted ptr.info (drop_ptr fd ptr s) dropped (==→eq _ 0 last))
            | inr more ↦ rw more dropped
          ])
  ]
