-- ===== src/Svipc/Sem/Effect.antt =====
-- What operations on one semaphore do to the set.
use posnk.Base.{
  ℕ, ◌+◌, ◌-◌, ◌%◌, ◌^◌, ◌≤◌, ◌<◌, ◌≡◌, ◌≢◌, refl, ap, ◌∙◌, true, false, ◌||◌, ◌==◌, leb, some,
  arith, inl, inr, Bool-cases, get_elem?, get_elem?-set, get_elem?-set_other, lt→ltb, le→ltb, ==→eq,
}
use posnk.Kernel.Permissions.{Process}
use posnk.Kernel.Synch.{semaphore_add}
use posnk.Svipc.Sem.{SysvSem, SemInfo, Sembuf, short_negative, short_neg}
use posnk.Svipc.Sem.Operate.{checkblock_int, set_sem, done, asserted, apply_to, semop_int}

-- The operation names a semaphore of the set.
pub record Names (op : Sembuf) (q : SemInfo) (s : SysvSem) : Type 0 where
  pub inside : (short_negative op.sem_num || leb q.sem_nsems op.sem_num) ≡ false
  pub found : get_elem? q.sems op.sem_num ≡ some s

-- The set after one operation: its semaphore has the value plus the operation, in 16 bits; the
-- others are as they were.
pub record IsResult (op : Sembuf) (q : SemInfo) (s : SysvSem) (q' : SemInfo) : Type 0 where
  pub changed :
      (s' : SysvSem) × (get_elem? q'.sems op.sem_num ≡ some s')
      × (s'.semval ≡ (s.semval + op.sem_op) % 2 ^ 16)
  pub others : (k : ℕ) → k ≢ op.sem_num → get_elem? q'.sems k ≡ get_elem? q.sems k
  pub id : q'.id ≡ q.id
  pub refs : q'.refs ≡ q.refs
  pub nsems : q'.sem_nsems ≡ q.sem_nsems

module _ (op : Sembuf) (q : SemInfo) (s : SysvSem) (names : Names op q s) where
  -- Writing the new value, whatever the semaphores that the sleepers wait on become.
  set-IsResult :
      (s' : SysvSem) (q₀ : SemInfo)
      → s'.semval ≡ (s.semval + op.sem_op) % 2 ^ 16
      → q₀.sems ≡ q.sems
      → q₀.id ≡ q.id
      → q₀.refs ≡ q.refs
      → q₀.sem_nsems ≡ q.sem_nsems
      → IsResult op q s (set_sem op.sem_num s' q₀)
  set-IsResult s' q₀ v sems id refs nsems = record {
    changed = (
      s',
      get_elem?-set q₀.sems op.sem_num (ap (λ l. get_elem? l op.sem_num) sems ∙ names.found),
      v,
    );
    others = λ k ne. get_elem?-set_other q₀.sems op.sem_num k s' ne ∙ ap (λ l. get_elem? l k) sems;
    id = id;
    refs = refs;
    nsems = nsems;
  }

  semop_int_zero :
      (p : Process)
      → op.sem_op ≡ 0
      → s.semval ≡ 0
      → (q' : SemInfo) × (semop_int p op q ≡ done q') × IsResult op q s q'
  unfolding semop_int apply_to
  semop_int_zero p e v = (
    q,
    rw (names.inside, names.found, e, v),
    record {
      changed = (s, names.found, omega arith);
      others = λ k ne. refl;
      id = refl;
      refs = refl;
      nsems = refl;
    },
  )

  pub semop_int_minus :
      (p : Process)
      → short_negative op.sem_op ≡ true
      → op.sem_op < 2 ^ 16
      → s.semval < 2 ^ 16
      → short_neg op.sem_op ≤ s.semval
      → (q' : SemInfo) × (semop_int p op q ≡ done q') × IsResult op q s q'
  unfolding semop_int apply_to
  semop_int_minus p neg lt lt' enough =
      let nonzero : (op.sem_op == 0) ≡ false = ground arith in
      let v = s.semval - short_neg op.sem_op in
      let s' = record s { semval = v; sempid = p.pid } in
      let e : v ≡ (s.semval + op.sem_op) % 2 ^ 16 = omega arith in
      elim (Bool-cases (v == 0)) [
        | inl last ↦ (
          set_sem op.sem_num s' (record q { zwaitsem = semaphore_add q.zwaitsem s.semzcnt }),
          rw (
            names.inside,
            names.found,
            nonzero,
            neg,
            le→ltb s.semval (short_neg op.sem_op) enough,
            last,
          ),
          set-IsResult s' _ e refl refl refl refl,
        )
        | inr more ↦ (
          set_sem op.sem_num s' q,
          rw (
            names.inside,
            names.found,
            nonzero,
            neg,
            le→ltb s.semval (short_neg op.sem_op) enough,
            more,
          ),
          set-IsResult s' q e refl refl refl refl,
        )
      ]

  semop_int_plus :
      (p : Process)
      → (op.sem_op == 0) ≡ false
      → short_negative op.sem_op ≡ false
      → (q' : SemInfo) × (semop_int p op q ≡ done q') × IsResult op q s q'
  unfolding semop_int apply_to
  semop_int_plus p nonzero pos =
      let q₀ = record q { nwaitsem = semaphore_add q.nwaitsem s.semncnt } in
      let s' = record s { semval = (s.semval + op.sem_op) % 2 ^ 16; sempid = p.pid } in
      (
        set_sem op.sem_num s' q₀,
        rw (names.inside, names.found, nonzero, pos),
        set-IsResult s' q₀ refl refl refl refl refl,
      )

  -- A decrease by at most the value need not wait; by more, it fails the assertion.
  pub checkblock_int_minus :
      short_negative op.sem_op ≡ true
      → op.sem_op < 2 ^ 16
      → short_neg op.sem_op ≤ s.semval
      → checkblock_int q op ≡ some false
  unfolding checkblock_int
  checkblock_int_minus neg lt enough =
      let nonzero : (op.sem_op == 0) ≡ false = ground arith in
      rw (names.inside, names.found, nonzero, neg, le→ltb s.semval (short_neg op.sem_op) enough)

  pub semop_int_short :
      (p : Process)
      → short_negative op.sem_op ≡ true
      → s.semval < short_neg op.sem_op
      → semop_int p op q ≡ asserted
  unfolding semop_int apply_to
  semop_int_short p neg short =
      let nonzero : (op.sem_op == 0) ≡ false = ground arith in
      rw (names.inside, names.found, nonzero, neg, lt→ltb s.semval (short_neg op.sem_op) short)

  -- An operation that need not wait is done.
  pub semop_int_lem :
      (p : Process)
      → op.sem_op < 2 ^ 16
      → s.semval < 2 ^ 16
      → checkblock_int q op ≡ some false
      → (q' : SemInfo) × (semop_int p op q ≡ done q') × IsResult op q s q'
  unfolding checkblock_int
  semop_int_lem p lt lt' free =
      let h = rw (names.inside, names.found) at free in
      elim (Bool-cases (op.sem_op == 0)) [
        | inl e ↦ semop_int_zero p (==→eq _ _ e) (ground arith)
        | inr e ↦ elim (Bool-cases (short_negative op.sem_op)) [
          | inl e' ↦ semop_int_minus p e' lt lt' (ground arith)
          | inr e' ↦ semop_int_plus p e e'
        ]
      ]
