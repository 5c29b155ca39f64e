-- ===== src/Svipc/Msg/Receiving.antt =====
-- How _sys_msgrcv can end, and what it keeps.
use posnk.Base.{
  ℕ, ◌<◌, ◌≡◌, refl, some, List, arith, ◌⊎◌, inl, inr, add32, Bool-cases, Option-cases, bit_and,
  not, ◌&&◌, ltb,
}
use posnk.Kernel.Outcome.{Turn, returned, Keep, Ends, ends, Ends-and_then}
use posnk.Kernel.Scheduler.{WaitResult, wait_ok}
use posnk.Kernel.Synch.Wait.{patience, interruptible_down-Ends}
use posnk.Kernel.Loop.{Continues, loop_inv}
use posnk.Svipc.Perm.{is_set, ipc_have_permissions, ipc_perm_read}
use posnk.Svipc.Table.{Errno, eintr, eidrm, fails, find}
use posnk.Svipc.Msg.{
  Message, Queue, Queues, long_size, msg_get_by_id, msg_recv_iterator, with_queue, rwait_sem, unref,
}
use posnk.Svipc.Msg.Counted.{
  AllCounted, modify-AllCounted, msg_release-AllCounted, take_message-IsCounted,
}
use posnk.Svipc.Msg.Receive.{
  Request, take_message, receive, receive_woken, receive_round, receive_wait, receive_from, msgrcv,
  ipc_nowait, msg_noerror,
}
use posnk.Svipc.Msg.Waiting.{
  IsWaited, rwait_sem-IsWaitable, unref-IsCounted, add_ref-IsWaited, add_ref-rpatience,
}

-- A wait for a message ends with the queue gone or the caller interrupted, or with a message of
-- the queue that the request accepts.
abbrev Found : Request → Errno ⊎ Message → Queues → List (Turn Queues) → Type 0
Found r (inl e) t ts = ((e ≡ eidrm) ⊎ (e ≡ eintr)) × AllCounted t
Found r (inr msg) t ts =
    AllCounted t
    × (q : Queue) × (msg_get_by_id r.msqid t ≡ some q)
    × (find (msg_recv_iterator r.msgtyp) q.msgs ≡ some msg)

module _ (r : Request) where
  abbrev Inv : Unit {0} → Queues → List (Turn Queues) → Type 0
  Inv l t ts = IsWaited r.msqid t × Keep (IsWaited r.msqid) ts

  abbrev measure : Unit {0} → Queues → List (Turn Queues) → ℕ
  measure l t ts = patience (rwait_sem r.msqid) t ts

  receive_woken-Ends :
      (w : WaitResult) (t : Queues) (ts : List (Turn Queues)) (m : ℕ)
      → Inv tt t ts
      → measure tt t ts < m
      → Ends (Continues Inv measure (Found r) m) (IsWaited r.msqid) (receive_woken r w t ts)
  unfolding receive_woken
  receive_woken-Ends wait_ok t ts m (i, keep) lt =
      let (q, e) = i.present in
      elim (Bool-cases q.del) [
        | inl gone ↦
            rw (e, receive_woken, with_queue, gone)
              (ends (inl refl, msg_release-AllCounted r.msqid t i.counted))
        | inr there ↦ elim (Option-cases (find (msg_recv_iterator r.msgtyp) q.msgs)) [
          | inl no_msg ↦ rw (e, receive_woken, with_queue, there, no_msg) (ends ((i, keep), lt))
          | inr (msg, hit) ↦
              rw (e, receive_woken, with_queue, there, hit) (ends (i.counted, q, e, hit))
        ]
      ]
  receive_woken-Ends _ t ts m (i, keep) lt =
      rw (i.present.1, receive_woken, with_queue)
        (ends (inr refl, msg_release-AllCounted r.msqid t i.counted))

  receive_round-Ends :
      (l : Unit {0}) (t : Queues) (ts : List (Turn Queues))
      → Inv l t ts
      → Ends
          (Continues Inv measure (Found r) (measure l t ts))
          (IsWaited r.msqid)
          (receive_round r l t ts)
  unfolding receive_round
  receive_round-Ends l t ts (i, keep) =
      Ends-and_then
        (interruptible_down-Ends (rwait_sem r.msqid) (rwait_sem-IsWaitable r.msqid) t ts keep i)
        λ w t' ts' (i', keep', lt). receive_woken-Ends w t' ts' (measure l t ts) (i', keep') lt

module _ (r : Request) where
  receive-AllCounted :
      (msg : Message) (t : Queues) (ts : List (Turn Queues)) {q : Queue}
      → AllCounted t
      → msg_get_by_id r.msqid t ≡ some q
      → find (msg_recv_iterator r.msgtyp) q.msgs ≡ some msg
      → Ends (λ _ t' _. AllCounted t') (IsWaited r.msqid) (receive r msg t ts)
  unfolding receive
  receive-AllCounted msg t ts {q} a e hit =
      elim (Bool-cases (ltb r.msgsz msg.msize && not (is_set (bit_and r.msgflg msg_noerror)))) [
        | inl big ↦
            rw big (ends (modify-AllCounted r.msqid unref t a λ q e c. unref-IsCounted r.msqid q c))
        | inr fits ↦ rw fits (
            ends (
              modify-AllCounted r.msqid (take_message r msg) t a λ q' e' c.
                let same : q ≡ q' = ground arith in
                take_message-IsCounted r msg q' (rw (← same) hit) c))
      ]

  receive_wait-Ends :
      (fuel : ℕ) (t : Queues) (ts : List (Turn Queues))
      → IsWaited r.msqid t
      → Keep (IsWaited r.msqid) ts
      → patience (rwait_sem r.msqid) t ts < fuel
      → Ends (Found r) (IsWaited r.msqid) (receive_wait r fuel t ts)
  unfolding receive_wait
  receive_wait-Ends fuel t ts i keep lt =
      loop_inv (Inv r) (measure r) (receive_round r) (receive_round-Ends r) fuel tt _ ts
        (add_ref-IsWaited r.msqid t i, keep) (rw (add_ref-rpatience r.msqid t ts i) lt)

  receive_from-AllCounted :
      (fuel : ℕ) (t : Queues) (ts : List (Turn Queues)) {q : Queue}
      → AllCounted t
      → msg_get_by_id r.msqid t ≡ some q
      → Keep (IsWaited r.msqid) ts
      → patience (rwait_sem r.msqid) t ts < fuel
      → Ends (λ _ t' _. AllCounted t') (IsWaited r.msqid) (receive_from r fuel q t ts)
  unfolding receive_from
  receive_from-AllCounted fuel t ts {q} a e keep lt =
      elim (Option-cases (find (msg_recv_iterator r.msgtyp) q.msgs)) [
        | inr (msg, hit) ↦ rw (hit, receive_from) (receive-AllCounted msg t ts a e hit)
        | inl none' ↦ elim (Bool-cases (is_set (bit_and r.msgflg ipc_nowait))) [
          | inl no_wait ↦ rw (none', receive_from, no_wait) (ends a)
          | inr wait ↦
              rw (none', receive_from, wait)
                (Ends-and_then
                  (receive_wait-Ends fuel t ts (record { counted = a; present = (q, e) }) keep lt)
                  λ found t' ts'.
                    elim found
                      as (λ found.
                        Found r found t' ts'
                        → Ends (λ _ t'' _. AllCounted t'') (IsWaited r.msqid)
                            (elim found [
                              | inl e ↦ returned (fails e) t' ts'
                              | inr msg ↦ receive r msg t' ts'
                            ])) [
                              | inl e' ↦ λ (why, a'). ends a'
                              | inr msg ↦
                                  λ (a', q', e', hit). receive-AllCounted msg t' ts' a' e' hit
                            ])
        ]
      ]

-- A call of msgrcv keeps the counters of every queue in step with its messages, on each of its
-- paths and across its waits, if the other tasks keep them so and do not free the queue that the
-- call waits on. It never dereferences a freed queue, and with the fuel stated it returns, or still
-- sleeps when the schedule ends.
pub msgrcv-AllCounted :
    (r : Request) (fuel : ℕ) (t : Queues) (ts : List (Turn Queues))
    → AllCounted t
    → Keep (IsWaited r.msqid) ts
    → patience (rwait_sem r.msqid) t ts < fuel
    → Ends (λ _ t' _. AllCounted t') (IsWaited r.msqid) (msgrcv r fuel t ts)
unfolding msgrcv
msgrcv-AllCounted r fuel t ts a keep lt = elim (Option-cases (msg_get_by_id r.msqid t)) [
  | inl e ↦ rw (e, msgrcv) (ends a)
  | inr (q, e) ↦ elim (Bool-cases (not (ipc_have_permissions r.caller q.msg_perm ipc_perm_read))) [
    | inl denied ↦ rw (e, msgrcv, denied) (ends a)
    | inr allowed ↦ elim (Bool-cases q.del) [
      | inl gone ↦ rw (e, msgrcv, allowed, gone) (ends a)
      | inr there ↦
          rw (e, msgrcv, allowed, there)
            (receive_from-AllCounted (record r { msgsz = add32 r.msgsz long_size }) fuel t ts a e
              keep lt)
    ]
  ]
]
