-- ===== src/Kernel/Streams/Tables.antt =====
-- What closing does to the table.
use posnk.Base.{
  ℕ, ◌==◌, ◌≤◌, ◌≡◌, ◌≢◌, refl, sym, ap, ◌∙◌, Bool, true, none, List, [], ◌∷◌, length, arith, inl,
  inr, Bool-cases, Option-cases, ==→eq, ne→==,
}
use posnk.Kernel.Streams.{StreamPtr, State, stream_get_ptr, unlink}
use posnk.Kernel.Streams.Files.{release, release_status, drop_ptr, sys_close_int, close_open}
use posnk.Kernel.Streams.Counting.{get_here, get_there}

-- What is not in the table stays away from it.
unlink-missing :
    (fd : ℕ) (table : List StreamPtr) → stream_get_ptr fd table ≡ none → unlink fd table ≡ table
unfolding unlink
unlink-missing fd [] e = refl
unlink-missing fd (x ∷ table) e = elim (Bool-cases (x.id == fd)) [
  | inl here ↦ absurd (cc (sym (get_here fd x table here) ∙ e))
  | inr there ↦ rw there (
      ap (λ (t : List StreamPtr). x ∷ t)
        (unlink-missing fd table (sym (get_there fd x table there) ∙ e)))
]

pub length-unlink : (fd : ℕ) (table : List StreamPtr) → length (unlink fd table) ≤ length table
unfolding unlink
length-unlink fd [] = omega arith
length-unlink fd (x ∷ table) = elim (Bool-cases (x.id == fd)) [
  | inl here ↦ rw here (omega arith)
  | inr there ↦ rw there (omega (arith, length-unlink fd table))
]

-- The other numbers are found as before.
pub stream_get_ptr-unlink :
    (fd other : ℕ) (table : List StreamPtr)
    → other ≢ fd
    → stream_get_ptr other (unlink fd table) ≡ stream_get_ptr other table
unfolding unlink
stream_get_ptr-unlink fd other [] ne = refl
stream_get_ptr-unlink fd other (x ∷ table) ne = elim (Bool-cases (x.id == fd)) [
  | inl here ↦
      let same : x.id ≡ fd = ==→eq x.id fd here in
      rw here (sym (get_there other x table (ne→== x.id other (λ e. ne (sym e ∙ same)))))
  | inr there ↦ rw there (elim (Bool-cases (x.id == other)) [
    | inl found ↦ get_here other x (unlink fd table) found ∙ sym (get_here other x table found)
    | inr off ↦
        get_there other x (unlink fd table) off
        ∙ stream_get_ptr-unlink fd other table ne
        ∙ sym (get_there other x table off)
  ])
]

module _ (ext_close : ℕ → ℕ) (current : Bool) where
  release-table :
      (i : ℕ) (s : State)
      → ((release ext_close current i s).1.fd_table ≡ s.fd_table)
        × ((release ext_close current i s).1.others ≡ s.others)
        × ((release ext_close current i s).1.heap ≡ s.heap)
  unfolding release
  release-table i s = elim (Bool-cases (release_status ext_close i (s.stream i).type == 0)) [
    | inl done ↦ rw done (refl, refl, refl)
    | inr failed ↦ rw failed (refl, refl, refl)
  ]

  -- The table after the call, on all branches.
  pub sys_close_int-table :
      (fd : ℕ) (s : State)
      → ((sys_close_int ext_close current fd s).1.fd_table ≡ unlink fd s.fd_table)
        × ((sys_close_int ext_close current fd s).1.others ≡ s.others)
        × ((sys_close_int ext_close current fd s).1.heap ≡ s.heap)
  unfolding sys_close_int drop_ptr
  sys_close_int-table fd s = elim (Option-cases (stream_get_ptr fd s.fd_table)) [
    | inl missing ↦
        rw (sys_close_int, missing) (sym (unlink-missing fd s.fd_table missing), refl, refl)
    | inr (ptr, there) ↦
        rw (sys_close_int, there)
          (elim (Bool-cases (((drop_ptr fd ptr s).stream ptr.info).ref_count == 0)) [
            | inl last ↦ rw last (release-table ptr.info (drop_ptr fd ptr s))
            | inr more ↦ rw more (refl, refl, refl)
          ])
  ]

pub close_open-table :
    (ext_close : ℕ → ℕ) (fd : ℕ) (s : State)
    → ((close_open ext_close fd s).fd_table ≡ unlink fd s.fd_table)
      × ((close_open ext_close fd s).others ≡ s.others)
      × ((close_open ext_close fd s).heap ≡ s.heap)
close_open-table ext_close fd s = elim (Option-cases (stream_get_ptr fd s.fd_table)) [
  | inl missing ↦ rw (close_open, missing) (sym (unlink-missing fd s.fd_table missing), refl, refl)
  | inr (ptr, there) ↦ rw (close_open, there) (sys_close_int-table ext_close true fd s)
]
