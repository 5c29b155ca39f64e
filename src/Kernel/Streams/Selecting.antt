-- ===== src/Kernel/Streams/Selecting.antt =====
-- The loops that close descriptors.
use posnk.Base.{
  ℕ, suc, zero, ◌==◌, ◌<◌, ◌≡◌, ◌≢◌, refl, sym, ap, ◌∙◌, if◌then◌else◌, Bool, true, false, none,
  some, List, [], ◌∷◌, length, arith, inl, inr, Bool-cases, Option-cases, ==→ne, ne→==, ==_refl,
}
use posnk.Kernel.Streams.{StreamPtr, State, stream_get_ptr, unlink}
use posnk.Kernel.Streams.Files.{
  select, close_selected, stream_exec_iterator, stream_do_close_on_exec, stream_do_close_all,
  sys_close_int,
}
use posnk.Kernel.Streams.Counting.{some_injective, get_here, get_there, get_empty}
use posnk.Kernel.Streams.Tables.{sys_close_int-table, stream_get_ptr-unlink}

-- No number stands twice in the table.
unfoldable pub IsUnique : List StreamPtr → Type 0
IsUnique [] = Unit
IsUnique (x ∷ table) = (stream_get_ptr x.id table ≡ none) × IsUnique table

-- The descriptors that are not selected.
unfoldable pub unselected : (StreamPtr → Bool) → List StreamPtr → List StreamPtr
unselected test [] = []
unselected test (x ∷ table) = let rest = unselected test table in if test x then rest else x ∷ rest

module _ (test : StreamPtr → Bool) where
  select_empty : select test [] ≡ none
  unfolding select
  select_empty = refl

  select_here :
      (x : StreamPtr) (table : List StreamPtr) → test x ≡ true → select test (x ∷ table) ≡ some x
  unfolding select
  select_here x table here = rw here refl

  select_there :
      (x : StreamPtr) (table : List StreamPtr)
      → test x ≡ false
      → select test (x ∷ table) ≡ select test table
  unfolding select
  select_there x table there = rw there refl

  select-unselected :
      (table : List StreamPtr) → select test table ≡ none → unselected test table ≡ table
  unfolding unselected
  select-unselected [] e = refl
  select-unselected (x ∷ table) e = elim (Bool-cases (test x)) [
    | inl yes_it ↦ absurd (cc (sym e ∙ select_here x table yes_it))
    | inr no_it ↦ rw no_it (
        ap (λ (t : List StreamPtr). x ∷ t)
          (select-unselected table (sym (select_there x table no_it) ∙ e)))
  ]

  -- What is selected is in the table.
  select-stream_get_ptr :
      (table : List StreamPtr) (ptr : StreamPtr)
      → select test table ≡ some ptr
      → stream_get_ptr ptr.id table ≢ none
  select-stream_get_ptr [] ptr e = absurd (cc (sym select_empty ∙ e))
  select-stream_get_ptr (x ∷ table) ptr e = elim (Bool-cases (x.id == ptr.id)) [
    | inl same ↦ λ missing. cc (sym (get_here ptr.id x table same) ∙ missing)
    | inr off ↦ elim (Bool-cases (test x)) [
      | inl this ↦
          let eq : x ≡ ptr = some_injective (sym (select_here x table this) ∙ e) in
          absurd (==→ne x.id ptr.id off (ap (λ (p : StreamPtr). p.id) eq))
      | inr that ↦ λ missing.
          select-stream_get_ptr table ptr (sym (select_there x table that) ∙ e)
            (sym (get_there ptr.id x table off) ∙ missing)
    ]
  ]

  unselected-unlink :
      (table : List StreamPtr) (ptr : StreamPtr)
      → IsUnique table
      → select test table ≡ some ptr
      → unselected test (unlink ptr.id table) ≡ unselected test table
  unfolding unselected unlink IsUnique
  unselected-unlink [] ptr u e = refl
  unselected-unlink (x ∷ table) ptr u e = elim (Bool-cases (test x)) [
    | inl this ↦
        let eq : x ≡ ptr = some_injective (sym (select_here x table this) ∙ e) in
        let here : (x.id == ptr.id) ≡ true =
          ap (λ (p : StreamPtr). x.id == p.id) (sym eq) ∙ ==_refl x.id in
        rw (here, this) refl
    | inr that ↦
        let e' = sym (select_there x table that) ∙ e in
        let there = select-stream_get_ptr table ptr e' in
        let off : (x.id == ptr.id) ≡ false =
          ne→== x.id ptr.id
            λ same. there (ap (λ (fd : ℕ). stream_get_ptr fd table) (sym same) ∙ u.0) in
        rw (off, that) (ap (λ (t : List StreamPtr). x ∷ t) (unselected-unlink table ptr u.1 e'))
  ]

length-unlink_found :
    (fd : ℕ) (table : List StreamPtr)
    → stream_get_ptr fd table ≢ none
    → suc (length (unlink fd table)) ≡ length table
unfolding unlink
length-unlink_found fd [] there = absurd (there (get_empty fd))
length-unlink_found fd (x ∷ table) there = elim (Bool-cases (x.id == fd)) [
  | inl here ↦ rw here refl
  | inr off ↦
      rw off (ap suc (length-unlink_found fd table (λ e. there (get_there fd x table off ∙ e))))
]

pub unlink-IsUnique :
    (fd : ℕ) (table : List StreamPtr) → IsUnique table → IsUnique (unlink fd table)
unfolding unlink IsUnique
unlink-IsUnique fd [] u = u
unlink-IsUnique fd (x ∷ table) u = elim (Bool-cases (x.id == fd)) [
  | inl here ↦ rw here u.1
  | inr off ↦
      rw off (
        stream_get_ptr-unlink fd x.id table (==→ne x.id fd off) ∙ u.0,
        unlink-IsUnique fd table u.1,
      )
]

-- With as much fuel as there are descriptors and one more the loop ends, and what it leaves in the table
-- is what is not selected.
close_selected_lem :
    (ext_close : ℕ → ℕ) (current : Bool) (test : StreamPtr → Bool) (fuel : ℕ) (s : State)
    → length s.fd_table < fuel
    → IsUnique s.fd_table
    → (s' : State) × (close_selected ext_close current test fuel s ≡ some s')
      × (s'.fd_table ≡ unselected test s.fd_table)
unfolding close_selected
close_selected_lem ext_close current test zero s enough u = absurd (omega arith)
close_selected_lem ext_close current test (suc fuel) s enough u =
    elim (Option-cases (select test s.fd_table)) [
      | inl done ↦ (s, rw (close_selected, done) refl, sym (select-unselected test s.fd_table done))
      | inr (ptr, found) ↦
          let next = (sys_close_int ext_close current ptr.id s).1 in
          let table : next.fd_table ≡ unlink ptr.id s.fd_table =
            (sys_close_int-table ext_close current ptr.id s).0 in
          let shorter =
            length-unlink_found ptr.id s.fd_table
              (select-stream_get_ptr test s.fd_table ptr found) in
          let (s', run, left) =
            close_selected_lem ext_close current test fuel next
              (rw table (omega (arith, shorter, enough)))
              (rw table (unlink-IsUnique ptr.id s.fd_table u)) in
          (
            s',
            rw (close_selected, found) run,
            left ∙ ap (unselected test) table ∙ unselected-unlink test s.fd_table ptr u found,
          )
    ]

-- In a table in which no number stands twice, stream_do_close_on_exec ends, and what is left are the
-- descriptors without FD_CLOEXEC, in their order.
pub stream_do_close_on_exec_lem :
    (ext_close : ℕ → ℕ) (s : State)
    → IsUnique s.fd_table
    → (s' : State) × (stream_do_close_on_exec ext_close s ≡ some s')
      × (s'.fd_table ≡ unselected stream_exec_iterator s.fd_table)
stream_do_close_on_exec_lem ext_close s u =
    close_selected_lem ext_close true stream_exec_iterator (suc (length s.fd_table)) s (omega arith)
      u

unselected_none : (table : List StreamPtr) → unselected (λ ptr. true) table ≡ []
unfolding unselected
unselected_none [] = refl
unselected_none (x ∷ table) = unselected_none table

-- In a table in which no number stands twice, stream_do_close_all ends with an empty table, whatever the
-- closes of external streams answer.
pub stream_do_close_all_lem :
    (ext_close : ℕ → ℕ) (current : Bool) (s : State)
    → IsUnique s.fd_table
    → (s' : State) × (stream_do_close_all ext_close current s ≡ some s') × (s'.fd_table ≡ [])
stream_do_close_all_lem ext_close current s u =
    let (s', run, left) =
      close_selected_lem ext_close current (λ ptr. true) (suc (length s.fd_table)) s (omega arith)
        u in
    (s', run, left ∙ unselected_none s.fd_table)
