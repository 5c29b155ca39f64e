-- ===== src/Svipc/Sem/Single.antt =====
-- _sys_semop on one operation, and where it stops on an assertion.
use posnk.Base.{
  ℕ, suc, ◌^◌, ◌<◌, ◌≡◌, refl, ap, ◌∙◌, true, false, if◌then◌else◌, none, some, List, [], ◌∷◌,
  arith, bit_and,
}
use posnk.Kernel.Outcome.{Turn, returned, panic}
use posnk.Kernel.Loop.{loop}
use posnk.Svipc.Perm.{is_set}
use posnk.Svipc.Table.{eagain, value, fails, find-update}
use posnk.Svipc.Table.Laws.{find-true}
use posnk.Svipc.Msg.Receive.{ipc_nowait}
use posnk.Svipc.Sem.{
  SemInfo, SemTable, Sembuf, sem_get_by_id, modify, sem_id_search_iterator, add_ref, drop_ref,
  with_info,
}
use posnk.Svipc.Sem.Operate.{
  Operation, checkblock_int, scan, clear, blocked, failed, apply_all, semop_round, semop_apply,
  semop_block, semop, halted, all_done,
}

-- A write through a pointer to a set that is there.
pub sem_get_by_id-modify :
    (id : ℕ) (f : SemInfo → SemInfo) (t : SemTable) {q : SemInfo}
    → sem_get_by_id id t ≡ some q
    → (f q).id ≡ q.id
    → sem_get_by_id id (modify id f t) ≡ some (f q)
unfolding sem_get_by_id modify
sem_get_by_id-modify id f t {q} h same =
    find-update (sem_id_search_iterator id) f t.sem_list h
      (rw same (find-true (sem_id_search_iterator id) t.sem_list h))

-- The call reaches the set: it is there and not marked for deletion.
pub record IsThere (o : Operation) (t : SemTable) (q : SemInfo) : Type 0 where
  pub present : sem_get_by_id o.semid t ≡ some q
  pub kept : q.del ≡ false
  pub referenced : q.refs < 2 ^ 32

scan-add_ref : (q : SemInfo) (n : ℕ) (ops : List Sembuf) → scan (add_ref q) n ops ≡ scan q n ops
unfolding scan checkblock_int
scan-add_ref q n [] = refl
scan-add_ref q n (op ∷ ops) =
    ap (λ r. elim (checkblock_int q op) [ none ↦ failed | some b ↦ if b then blocked n op else r ])
      (scan-add_ref q (suc n) ops)

pub drop_ref-add_ref : (q : SemInfo) → q.refs < 2 ^ 32 → drop_ref (add_ref q) ≡ q
drop_ref-add_ref q lt = ap (λ r. record q { refs = r }) (omega arith)

module _ (o : Operation) (t : SemTable) (q : SemInfo) (there : IsThere o t q) where
  referenced-present : sem_get_by_id o.semid (modify o.semid add_ref t) ≡ some (add_ref q)
  referenced-present = sem_get_by_id-modify o.semid add_ref t there.present refl

  scan-referenced : scan (add_ref q) 0 o.sops ≡ scan q 0 o.sops
  scan-referenced = scan-add_ref q 0 o.sops

  -- If the first operation that has to wait is with IPC_NOWAIT, the call fails with EAGAIN, and the
  -- set is as it was.
  pub semop_nowait :
      (fuel : ℕ) (ts : List (Turn SemTable)) (n : ℕ) (op : Sembuf)
      → scan q 0 o.sops ≡ blocked n op
      → is_set (bit_and op.sem_flg ipc_nowait) ≡ true
      → (t' : SemTable) × (semop o (suc fuel) t ts ≡ returned (fails eagain) t' ts)
        × (sem_get_by_id o.semid t' ≡ some q)
  unfolding semop loop semop_round semop_block
  semop_nowait fuel ts n op blocks no_wait = (
    modify o.semid drop_ref (modify o.semid add_ref t),
    rw (
      there.present, semop, there.kept, loop, semop_round, referenced-present, with_info,
      scan-referenced, blocks, no_wait,
    ),
    sem_get_by_id-modify o.semid drop_ref _ referenced-present refl
        ∙ ap some (drop_ref-add_ref q there.referenced),
  )

  -- If nothing has to wait, the call goes on with the operations.
  pub semop_clear :
      (fuel : ℕ) (ts : List (Turn SemTable))
      → scan q 0 o.sops ≡ clear
      → semop o (suc fuel) t ts ≡ semop_apply o (modify o.semid add_ref t) ts
  unfolding semop loop semop_round semop_apply
  semop_clear fuel ts none_waits = rw (
    there.present, semop, there.kept, loop, semop_round, referenced-present, with_info,
    scan-referenced, none_waits, semop_apply, referenced-present,
  )

  pub semop_halted :
      (fuel : ℕ) (ts : List (Turn SemTable))
      → scan q 0 o.sops ≡ clear
      → apply_all o.caller o.sops (add_ref q) ≡ halted
      → semop o (suc fuel) t ts ≡ panic
  unfolding semop_apply
  semop_halted fuel ts none_waits halts =
      semop_clear fuel ts none_waits ∙ rw (referenced-present, with_info, halts)

  -- The assertion in the scan.
  pub semop_failed :
      (fuel : ℕ) (ts : List (Turn SemTable))
      → scan q 0 o.sops ≡ failed
      → semop o (suc fuel) t ts ≡ panic
  unfolding semop loop semop_round
  semop_failed fuel ts asserts = rw (
    there.present, semop, there.kept, loop, semop_round, referenced-present, with_info,
    scan-referenced, asserts,
  )

  pub semop_done :
      (fuel : ℕ) (ts : List (Turn SemTable)) {q' : SemInfo}
      → scan q 0 o.sops ≡ clear
      → apply_all o.caller o.sops (add_ref q) ≡ all_done q'
      → q'.id ≡ q.id
      → (t' : SemTable) × (semop o (suc fuel) t ts ≡ returned (value tt) t' ts)
        × (sem_get_by_id o.semid t' ≡ some (drop_ref (record q' { sem_otime = o.system_time })))
  unfolding semop_apply
  semop_done fuel ts {q'} none_waits applied same = (
    modify o.semid (λ _. drop_ref (record q' { sem_otime = o.system_time }))
        (modify o.semid add_ref t),
    semop_clear fuel ts none_waits ∙ rw (referenced-present, with_info, applied),
    sem_get_by_id-modify o.semid _ _ referenced-present same,
  )
