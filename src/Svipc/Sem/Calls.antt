-- ===== src/Svipc/Sem/Calls.antt =====
-- Whole calls of _sys_semop with one or two operations.
use posnk.Base.{
  ℕ, suc, ◌+◌, ◌^◌, ◌≤◌, ◌<◌, ◌≡◌, refl, ap, ◌∙◌, true, false, leb, if◌then◌else◌, none, some, List,
  [], ◌∷◌, arith, inl, inr, Bool-cases, sub32,
}
use posnk.Kernel.Outcome.{Turn, returned, panic}
use posnk.Svipc.Table.{value}
use posnk.Svipc.Sem.{
  SysvSem, SemInfo, SemTable, Sembuf, short_negative, short_neg, sem_get_by_id, add_ref, drop_ref,
}
use posnk.Svipc.Sem.Operate.{
  Operation, checkblock_int, scan, blocked, apply_all, semop, clear, failed,
}
use posnk.Svipc.Sem.Single.{IsThere, semop_done, semop_halted, semop_failed}
use posnk.Svipc.Sem.Effect.{
  Names, IsResult, semop_int_lem, semop_int_minus, semop_int_short, checkblock_int_minus,
}

-- The scan passes an operation that need not wait.
scan_pass :
    (q : SemInfo) (n : ℕ) (op : Sembuf) (ops : List Sembuf)
    → checkblock_int q op ≡ some false
    → scan q n (op ∷ ops) ≡ scan q (suc n) ops
unfolding scan
scan_pass q n op ops free =
    ap (λ c. elim c [ none ↦ failed | some b ↦ if b then blocked n op else scan q (suc n) ops ])
      free

scan_fails :
    (q : SemInfo) (n : ℕ) (op : Sembuf) (ops : List Sembuf)
    → checkblock_int q op ≡ none
    → scan q n (op ∷ ops) ≡ failed
unfolding scan
scan_fails q n op ops fails =
    ap (λ c. elim c [ none ↦ failed | some b ↦ if b then blocked n op else scan q (suc n) ops ])
      fails

outside : (op : Sembuf) (q : SemInfo) → q.sem_nsems ≤ op.sem_num → checkblock_int q op ≡ none
unfolding checkblock_int
outside op q out =
    let beyond : leb q.sem_nsems op.sem_num ≡ true = ground arith in
    elim (Bool-cases (short_negative op.sem_num)) [ inl e ↦ rw e | inr e ↦ rw (e, beyond) ]

scan_end : (q : SemInfo) (n : ℕ) → scan q n [] ≡ clear
unfolding scan
scan_end q n = refl

checkblock_int-add_ref :
    (q : SemInfo) (op : Sembuf) → checkblock_int (add_ref q) op ≡ checkblock_int q op
unfolding checkblock_int
checkblock_int-add_ref q op = refl

module _ (o : Operation) (t : SemTable) (q : SemInfo) (there : IsThere o t q) where
  -- A call with one operation that need not wait succeeds at once: the semaphore it names has the
  -- value plus the operation, in 16 bits, the others are as they were, and the reference that the
  -- call took is given back.
  pub semop_single :
      (op : Sembuf) (s : SysvSem) (fuel : ℕ) (ts : List (Turn SemTable))
      → Names op q s
      → o.sops ≡ op ∷ []
      → op.sem_op < 2 ^ 16
      → s.semval < 2 ^ 16
      → checkblock_int q op ≡ some false
      → (t' : SemTable) × (q' : SemInfo) × (semop o (suc fuel) t ts ≡ returned (value tt) t' ts)
        × (sem_get_by_id o.semid t' ≡ some q')
        × IsResult op q s q'
  unfolding apply_all
  semop_single op s fuel ts names one lt lt' free =
      let names' : Names op (add_ref q) s = record { inside = names.inside; found = names.found } in
      let (q₁, run, r) =
        semop_int_lem op (add_ref q) s names' o.caller lt lt'
          (checkblock_int-add_ref q op ∙ free) in
      let (t', returns, present) =
        semop_done o t q there fuel ts {q' = q₁} (rw one (scan_pass q 0 op [] free ∙ scan_end q 1))
          (rw (one, apply_all, run)) r.id in
      (
        t',
        drop_ref (record q₁ { sem_otime = o.system_time }),
        returns,
        present,
        record {
          changed = r.changed;
          others = r.others;
          id = r.id;
          refs = ap (λ r. sub32 r 1) r.refs ∙ omega (arith, there.referenced);
          nsems = r.nsems;
        },
      )

  -- Two decreases of one semaphore, each at most its value but more than it together: nothing has
  -- to wait, and the second one fails the assertion on its value, which halts the kernel.
  pub semop_overdraw :
      (op op' : Sembuf) (s : SysvSem) (fuel : ℕ) (ts : List (Turn SemTable))
      → Names op q s
      → o.sops ≡ op ∷ op' ∷ []
      → op'.sem_num ≡ op.sem_num
      → short_negative op.sem_op ≡ true
      → short_negative op'.sem_op ≡ true
      → op.sem_op < 2 ^ 16
      → op'.sem_op < 2 ^ 16
      → s.semval < 2 ^ 16
      → short_neg op.sem_op ≤ s.semval
      → short_neg op'.sem_op ≤ s.semval
      → s.semval < short_neg op.sem_op + short_neg op'.sem_op
      → semop o (suc fuel) t ts ≡ panic
  unfolding apply_all
  semop_overdraw op op' s fuel ts names two same neg neg' lt lt' ltv le le' more =
      let names_add : Names op (add_ref q) s = record {
        inside = names.inside;
        found = names.found;
      } in
      let names' : Names op' q s = record {
        inside = rw same names.inside;
        found = rw same names.found;
      } in
      let (q₁, run, r) = semop_int_minus op (add_ref q) s names_add o.caller neg lt ltv le in
      let (s₁, found, v) = r.changed in
      let names₁ : Names op' q₁ s₁ = record {
        inside = rw (same, r.nsems) names.inside;
        found = rw same found;
      } in
      semop_halted o t q there fuel ts
        (rw two (
          scan_pass q 0 op (op' ∷ []) (checkblock_int_minus op q s names neg lt le)
          ∙ scan_pass q 1 op' [] (checkblock_int_minus op' q s names' neg' lt' le')
          ∙ scan_end q 2))
        (rw (
          two,
          apply_all,
          run,
          apply_all,
          semop_int_short op' q₁ s₁ names₁ o.caller neg' (omega arith),
        ))

  -- A call whose first operation is on a semaphore that the set does not have fails the assertion
  -- of the scan, before the test that would report EFBIG.
  pub semop_outside :
      (op : Sembuf) (ops : List Sembuf) (fuel : ℕ) (ts : List (Turn SemTable))
      → o.sops ≡ op ∷ ops
      → q.sem_nsems ≤ op.sem_num
      → semop o (suc fuel) t ts ≡ panic
  semop_outside op ops fuel ts first out =
      semop_failed o t q there fuel ts (rw first (scan_fails q 0 op ops (outside op q out)))
