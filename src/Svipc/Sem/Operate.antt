-- ===== src/Svipc/Sem/Operate.antt =====
-- _sys_semop with checkblock_int and _sys_semop_int.
use posnk.Base.{
  ℕ, suc, ◌+◌, ◌-◌, ◌%◌, ◌^◌, Bool, false, not, ◌||◌, ◌==◌, ltb, leb, if◌then◌else◌, Option, none,
  some, List, [], ◌∷◌, bit_and, ◌⊎◌, inl, inr, get_elem?, set,
}
use posnk.Kernel.Permissions.{Process}
use posnk.Kernel.Outcome.{Turn, Outcome, returned, panic, and_then}
use posnk.Kernel.Scheduler.{WaitResult, wait_ok}
use posnk.Kernel.Synch.{semaphore_add, interruptible_down}
use posnk.Kernel.Loop.{Round, loop}
use posnk.Svipc.Perm.{is_set}
use posnk.Svipc.Table.{Errno, eintr, eagain, einval, efbig, eidrm, Sys, value, fails}
use posnk.Svipc.Msg.Receive.{ipc_nowait}
use posnk.Svipc.Sem.{
  SysvSem, SemInfo, SemTable, Sembuf, short_negative, short_neg, sem_get_by_id, modify, with_info,
  add_ref, drop_ref, sem_release, nwait_sem, zwait_sem,
}

-- Whether an operation has to wait; `none` is a failed assertion.
unfoldable pub checkblock_int : SemInfo → Sembuf → Option Bool
checkblock_int info op =
    if short_negative op.sem_num || leb info.sem_nsems op.sem_num
    then none
    else elim (get_elem? info.sems op.sem_num) [
      | none ↦ none
      | some s ↦
          if op.sem_op == 0
          then some (not (s.semval == 0))
          else if short_negative op.sem_op
          then some (ltb s.semval (short_neg op.sem_op))
          else some false
    ]

-- The first operation that has to wait, with its place in the array.
pub data Scan : Type 0 where
  clear : Scan
  blocked : ℕ → Sembuf → Scan
  failed : Scan

unfoldable pub scan : SemInfo → ℕ → List Sembuf → Scan
scan info n [] = clear
scan info n (op ∷ ops) =
    let rest = scan info (suc n) ops in
    elim (checkblock_int info op) [ none ↦ failed | some b ↦ if b then blocked n op else rest ]

-- `info->sems[n]` is written.
abbrev pub set_sem : ℕ → SysvSem → SemInfo → SemInfo
set_sem n s info = record info { sems = set info.sems n s }

-- What one operation leaves; the assertions are those of the source.
pub data Applied : Type 0 where
  done : SemInfo → Applied
  too_big : Applied
  asserted : Applied

unfoldable pub apply_to : Process → Sembuf → SysvSem → SemInfo → Applied
unfolding semaphore_add
apply_to p op s info =
    if op.sem_op == 0
    then (if s.semval == 0 then done info else asserted)
    else if short_negative op.sem_op
    then (if ltb s.semval (short_neg op.sem_op)
        then asserted
        else let v = s.semval - short_neg op.sem_op in
          done (
            set_sem op.sem_num (record s { semval = v; sempid = p.pid })
              (if v == 0
                then record info { zwaitsem = semaphore_add info.zwaitsem s.semzcnt }
                else info)))
    else done (
        set_sem op.sem_num (record s { semval = (s.semval + op.sem_op) % 2 ^ 16; sempid = p.pid })
          (record info { nwaitsem = semaphore_add info.nwaitsem s.semncnt }))

unfoldable pub semop_int : Process → Sembuf → SemInfo → Applied
unfolding apply_to
semop_int p op info =
    if short_negative op.sem_num || leb info.sem_nsems op.sem_num
    then too_big
    else elim (get_elem? info.sems op.sem_num) [ none ↦ asserted | some s ↦ apply_to p op s info ]

-- The loop over the operations; one that is too big ends it with the operations before it done.
pub data Outcomes : Type 0 where
  all_done : SemInfo → Outcomes
  stopped : SemInfo → Outcomes
  halted : Outcomes

unfoldable pub apply_all : Process → List Sembuf → SemInfo → Outcomes
apply_all p [] info = all_done info
apply_all p (op ∷ ops) info = elim (semop_int p op info) [
  | done info' ↦ apply_all p ops info'
  | too_big ↦ stopped info
  | asserted ↦ halted
]

-- The count of those that wait for an increase, or for 0, in `info->sems[n]`: n is the place of the
-- operation in the array. A place behind the last semaphore is a write out of bounds.
abbrev pub count_waiting : (zero : Bool) → (ℕ → ℕ) → SysvSem → SysvSem
count_waiting zero f s =
    if zero then record s { semzcnt = f s.semzcnt } else record s { semncnt = f s.semncnt }

abbrev pub inc16 : ℕ → ℕ
inc16 n = (n + 1) % 2 ^ 16

abbrev pub dec16 : ℕ → ℕ
dec16 n = (n + 2 ^ 16 - 1) % 2 ^ 16

unfoldable pub wait_count : Bool → (ℕ → ℕ) → ℕ → SemInfo → Option SemInfo
wait_count zero f n info = elim (get_elem? info.sems n) [
  | none ↦ none
  | some s ↦ some (set_sem n (count_waiting zero f s) info)
]

-- The call: the set, the operations, the caller and the time.
pub record Operation : Type 0 where
  pub caller : Process
  pub system_time : ℕ
  pub semid : ℕ
  pub sops : List Sembuf

-- After a wait the count goes down again; then an interrupt, a deleted set, or the scan again.
unfoldable pub semop_woken :
    Operation
    → Bool
    → ℕ
    → WaitResult
    → SemTable
    → List (Turn SemTable)
    → Outcome SemTable (Unit {0} ⊎ Option Errno)
unfolding wait_count modify sem_release
semop_woken o zero n w t ts = with_info o.semid t λ info. elim (wait_count zero dec16 n info) [
  | none ↦ panic
  | some info' ↦
      let t' = modify o.semid (λ _. info') t in
      elim w [
        | wait_ok ↦
            if info.del
            then returned (inr (some eidrm)) (sem_release o.semid t') ts
            else returned (inl tt) t' ts
        | _ ↦ returned (inr (some eintr)) (sem_release o.semid t') ts
      ]
]

unfoldable pub semop_block :
    Operation
    → ℕ
    → Sembuf
    → SemInfo
    → SemTable
    → List (Turn SemTable)
    → Outcome SemTable (Unit {0} ⊎ Option Errno)
unfolding semop_woken
semop_block o n op info t ts =
    if is_set (bit_and op.sem_flg ipc_nowait)
    then returned (inr (some eagain)) (modify o.semid drop_ref t) ts
    else let zero = op.sem_op == 0 in
      elim (wait_count zero inc16 n info) [
        | none ↦ panic
        | some info' ↦
            and_then
              (interruptible_down (if zero then zwait_sem o.semid else nwait_sem o.semid)
                (modify o.semid (λ _. info') t) ts)
              λ w t' ts'. semop_woken o zero n w t' ts'
      ]

-- A round of `while (block)`: it ends with no error once nothing has to wait.
unfoldable pub semop_round : Operation → Round SemTable (Unit {0}) (Option Errno)
unfolding semop_block
semop_round o l t ts = with_info o.semid t λ info. elim (scan info 0 o.sops) [
  | failed ↦ panic
  | blocked n op ↦ semop_block o n op info t ts
  | clear ↦ returned (inr none) t ts
]

-- The operations themselves; on EFBIG the reference is kept.
unfoldable pub semop_apply :
    Operation → SemTable → List (Turn SemTable) → Outcome SemTable (Sys (Unit {0}))
unfolding modify
semop_apply o t ts = with_info o.semid t λ info. elim (apply_all o.caller o.sops info) [
  | halted ↦ panic
  | stopped info' ↦ returned (fails efbig) (modify o.semid (λ _. info') t) ts
  | all_done info' ↦
      returned (value tt)
        (modify o.semid (λ _. drop_ref (record info' { sem_otime = o.system_time })) t) ts
]

unfoldable pub semop :
    Operation → ℕ → SemTable → List (Turn SemTable) → Outcome SemTable (Sys (Unit {0}))
unfolding semop_round semop_apply
semop o fuel t ts = elim (sem_get_by_id o.semid t) [
  | none ↦ returned (fails einval) t ts
  | some info ↦
      if info.del
      then returned (fails eidrm) t ts
      else and_then (loop (semop_round o) fuel tt (modify o.semid add_ref t) ts)
          λ e t' ts'. elim e [ some e' ↦ returned (fails e') t' ts' | none ↦ semop_apply o t' ts' ]
]
