-- ===== src/Svipc/Msg/Sending.antt =====
-- How _sys_msgsnd can end, and what it keeps.
use posnk.Base.{
  ℕ, ◌<◌, ◌≡◌, refl, ◌==◌, ◌||◌, not, Option, none, some, List, ◌⊎◌, inl, inr, Bool-cases,
  Option-cases, bit_and,
}
use posnk.Kernel.Outcome.{Turn, returned, Keep, Ends, ends, Ends-and_then}
use posnk.Kernel.Scheduler.{WaitResult, wait_ok}
use posnk.Kernel.Synch.Wait.{patience, interruptible_down-Ends}
use posnk.Kernel.Loop.{Continues, loop_inv}
use posnk.Svipc.Perm.{is_set, ipc_have_permissions, ipc_perm_write}
use posnk.Svipc.Table.{Errno, eintr, eidrm, fails}
use posnk.Svipc.Msg.{
  Queue, Queues, is_negative, msg_get_by_id, modify, with_queue, unref, swait_sem,
}
use posnk.Svipc.Msg.Counted.{
  AllCounted, modify-AllCounted, msg_release-AllCounted, put_message-IsCounted,
}
use posnk.Svipc.Msg.Receive.{ipc_nowait}
use posnk.Svipc.Msg.Send.{
  Posting, is_full, put_message, enqueue, send_woken, send_round, send_wait, send_to, msgsnd,
}
use posnk.Svipc.Msg.Waiting.{
  IsWaited, swait_sem-IsWaitable, unref-IsCounted, add_ref-IsWaited, add_ref-spatience,
}

module _ (r : Posting) where
  -- A wait for room ends with the queue gone or the caller interrupted, or with room.
  abbrev Room : Option Errno → Queues → List (Turn Queues) → Type 0
  Room (some e) t ts = ((e ≡ eidrm) ⊎ (e ≡ eintr)) × AllCounted t
  Room none t ts = AllCounted t

  abbrev Inv : Unit {0} → Queues → List (Turn Queues) → Type 0
  Inv l t ts = IsWaited r.msqid t × Keep (IsWaited r.msqid) ts

  abbrev measure : Unit {0} → Queues → List (Turn Queues) → ℕ
  measure l t ts = patience (swait_sem r.msqid) t ts

  send_woken-Ends :
      (w : WaitResult) (t : Queues) (ts : List (Turn Queues)) (m : ℕ)
      → Inv tt t ts
      → measure tt t ts < m
      → Ends (Continues Inv measure Room m) (IsWaited r.msqid) (send_woken r w t ts)
  unfolding send_woken
  send_woken-Ends wait_ok t ts m (i, keep) lt =
      let (q, e) = i.present in
      elim (Bool-cases q.del) [
        | inl gone ↦
            rw (e, send_woken, with_queue, gone)
              (ends (inl refl, msg_release-AllCounted r.msqid t i.counted))
        | inr there ↦ rw (e, send_woken, with_queue, there) (ends ((i, keep), lt))
      ]
  send_woken-Ends _ t ts m (i, keep) lt =
      rw (i.present.1, send_woken, with_queue)
        (ends (inr refl, msg_release-AllCounted r.msqid t i.counted))

  send_round-Ends :
      (l : Unit {0}) (t : Queues) (ts : List (Turn Queues))
      → Inv l t ts
      → Ends (Continues Inv measure Room (measure l t ts)) (IsWaited r.msqid) (send_round r l t ts)
  unfolding send_round
  send_round-Ends l t ts (i, keep) =
      let (q, e) = i.present in
      elim (Bool-cases (is_full q)) [
        | inl full ↦
            rw (e, send_round, with_queue, full)
              (Ends-and_then
                (interruptible_down-Ends (swait_sem r.msqid) (swait_sem-IsWaitable r.msqid) t ts
                  keep i)
                λ w t' ts' (i', keep', lt).
                  send_woken-Ends w t' ts' (measure l t ts) (i', keep') lt)
        | inr room ↦ rw (e, send_round, with_queue, room) (ends i.counted)
      ]

  send_wait-Ends :
      (fuel : ℕ) (t : Queues) (ts : List (Turn Queues))
      → IsWaited r.msqid t
      → Keep (IsWaited r.msqid) ts
      → patience (swait_sem r.msqid) t ts < fuel
      → Ends Room (IsWaited r.msqid) (send_wait r fuel t ts)
  unfolding send_wait
  send_wait-Ends fuel t ts i keep lt =
      Ends-and_then
        (loop_inv Inv measure (send_round r) send_round-Ends fuel tt _ ts
          (add_ref-IsWaited r.msqid t i, keep) (rw (add_ref-spatience r.msqid t ts i) lt))
        λ e t' ts'.
          elim e
            as (λ e.
              Room e t' ts'
              → Ends Room (IsWaited r.msqid) (elim e [
                | some e' ↦ returned (some e') t' ts'
                | none ↦ returned none (modify r.msqid unref t') ts'
              ])) [
                | some e' ↦ λ p. ends p
                | none ↦ λ a.
                    ends
                      (modify-AllCounted r.msqid unref t' a λ q e' c. unref-IsCounted r.msqid q c)
              ]

  enqueue-AllCounted :
      (t : Queues) (ts : List (Turn Queues))
      → AllCounted t
      → Ends (λ _ t' _. AllCounted t') (IsWaited r.msqid) (enqueue r t ts)
  unfolding enqueue
  enqueue-AllCounted t ts a = elim (Bool-cases (not r.header_allocated || not r.text_allocated)) [
    | inl failed ↦ rw failed (ends a)
    | inr made ↦
        rw made (
          ends (modify-AllCounted r.msqid (put_message r) t a λ q e c. put_message-IsCounted r q c))
  ]

  send_to-AllCounted :
      (fuel : ℕ) (t : Queues) (ts : List (Turn Queues)) {q : Queue}
      → AllCounted t
      → msg_get_by_id r.msqid t ≡ some q
      → Keep (IsWaited r.msqid) ts
      → patience (swait_sem r.msqid) t ts < fuel
      → Ends (λ _ t' _. AllCounted t') (IsWaited r.msqid) (send_to r fuel q t ts)
  unfolding send_to
  send_to-AllCounted fuel t ts {q} a e keep lt = elim (Bool-cases (is_full q)) [
    | inr room ↦ rw room (enqueue-AllCounted t ts a)
    | inl full ↦ elim (Bool-cases (is_set (bit_and r.msgflg ipc_nowait))) [
      | inl no_wait ↦ rw (full, no_wait) (ends a)
      | inr wait ↦
          rw (full, wait)
            (Ends-and_then
              (send_wait-Ends fuel t ts (record { counted = a; present = (q, e) }) keep lt)
              λ e t' ts'.
                elim e
                  as (λ e.
                    Room e t' ts'
                    → Ends (λ _ t'' _. AllCounted t'') (IsWaited r.msqid)
                        (elim e [
                          | some e' ↦ returned (fails e') t' ts'
                          | none ↦ enqueue r t' ts'
                        ])) [
                          | some e' ↦ λ (why, a'). ends a'
                          | none ↦ λ a'. enqueue-AllCounted t' ts' a'
                        ])
    ]
  ]

  -- A call of msgsnd keeps the counters of every queue in step with its messages, on each of its
  -- paths and across its waits, if the other tasks keep them so and do not free the queue that the
  -- call waits on. It never dereferences a freed queue, and with the fuel stated it returns, or
  -- still sleeps when the schedule ends.
  pub msgsnd-AllCounted :
      (fuel : ℕ) (t : Queues) (ts : List (Turn Queues))
      → AllCounted t
      → Keep (IsWaited r.msqid) ts
      → patience (swait_sem r.msqid) t ts < fuel
      → Ends (λ _ t' _. AllCounted t') (IsWaited r.msqid) (msgsnd r fuel t ts)
  unfolding msgsnd
  msgsnd-AllCounted fuel t ts a keep lt = elim (Option-cases (msg_get_by_id r.msqid t)) [
    | inl e ↦ rw (e, msgsnd) (ends a)
    | inr (q, e) ↦
        elim (Bool-cases (not (ipc_have_permissions r.caller q.msg_perm ipc_perm_write))) [
          | inl denied ↦ rw (e, msgsnd, denied) (ends a)
          | inr allowed ↦ elim (Bool-cases (r.mtype == 0 || is_negative r.mtype)) [
            | inl bad ↦ rw (e, msgsnd, allowed, bad) (ends a)
            | inr good ↦ elim (Bool-cases q.del) [
              | inl gone ↦ rw (e, msgsnd, allowed, good, gone) (ends a)
              | inr there ↦
                  rw (e, msgsnd, allowed, good, there) (send_to-AllCounted fuel t ts a e keep lt)
            ]
          ]
        ]
  ]
