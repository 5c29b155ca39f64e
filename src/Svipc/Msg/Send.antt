-- ===== src/Svipc/Msg/Send.antt =====
-- _sys_msgsnd.
use posnk.Base.{
  ℕ, Bool, ◌||◌, not, ◌==◌, leb, if◌then◌else◌, Option, none, some, List, [], ◌∷◌, ◌++◌, bit_and,
  add32, ◌⊎◌, inl, inr,
}
use posnk.Base.Memory.{Memory, copy}
use posnk.Kernel.Permissions.{Process}
use posnk.Kernel.Outcome.{Turn, Outcome, returned, and_then}
use posnk.Kernel.Scheduler.{WaitResult, wait_ok}
use posnk.Kernel.Synch.{semaphore_up, interruptible_down}
use posnk.Kernel.Loop.{Round, loop}
use posnk.Svipc.Perm.{is_set, ipc_have_permissions, ipc_perm_write}
use posnk.Svipc.Table.{Errno, eintr, eagain, enomem, eacces, einval, eidrm, Sys, value, fails}
use posnk.Svipc.Msg.{
  Message, Queue, Queues, long_size, is_negative, msg_get_by_id, modify, with_queue, unref,
  msg_release, swait_sem,
}
use posnk.Svipc.Msg.Receive.{ipc_nowait}

-- The arguments of the call, the calling process, the time and the outcome of the two allocations.
-- `msgp` is the caller's buffer, and `mtype` the long in its first four bytes.
pub record Posting : Type 0 where
  pub caller : Process
  pub system_time : ℕ
  pub msqid : ℕ
  pub mtype : ℕ
  pub msgp : Memory
  pub msgsz : ℕ
  pub msgflg : ℕ
  pub header_allocated : Bool
  pub text_allocated : Bool

-- The bytes of a message with its type.
abbrev pub send_size : Posting → ℕ
send_size r = add32 long_size r.msgsz

abbrev pub message : Posting → Message
message r = record {
  mtype = r.mtype;
  msize = send_size r;
  mtext = copy (λ _. 0) 0 r.msgp 0 (send_size r);
}

-- The message is appended, and the counters of the queue follow.
unfoldable pub put_message : Posting → Queue → Queue
unfolding semaphore_up
put_message r q = record q {
  msg_qnum = add32 q.msg_qnum 1;
  used_bytes = add32 q.used_bytes (send_size r);
  msg_lspid = r.caller.pid;
  msg_stime = r.system_time;
  msgs = q.msgs ++ (message r ∷ []);
  rwaitsem = semaphore_up q.rwaitsem;
}

-- What follows once there is room.
unfoldable pub enqueue : Posting → Queues → List (Turn Queues) → Outcome Queues (Sys (Unit {0}))
unfolding put_message modify
enqueue r t ts =
    if not r.header_allocated || not r.text_allocated
    then returned (fails enomem) t ts
    else returned (value tt) (modify r.msqid (put_message r) t) ts

abbrev pub is_full : Queue → Bool
is_full q = leb q.msg_qbytes q.used_bytes

-- After a wait: an interrupt, a deleted queue, or the test of the loop again.
unfoldable pub send_woken :
    Posting → WaitResult → Queues → List (Turn Queues) → Outcome Queues (Unit {0} ⊎ Option Errno)
unfolding msg_release
send_woken r wait_ok t ts = with_queue r.msqid t λ q.
    if q.del then returned (inr (some eidrm)) (msg_release r.msqid t) ts else returned (inl tt) t ts
send_woken r _ t ts =
    with_queue r.msqid t λ q. returned (inr (some eintr)) (msg_release r.msqid t) ts

-- The loop ends with no error once there is room.
unfoldable pub send_round : Posting → Round Queues (Unit {0}) (Option Errno)
unfolding send_woken
send_round r l t ts = with_queue r.msqid t λ q.
    if is_full q
    then (and_then (interruptible_down (swait_sem r.msqid) t ts) λ w t' ts'. send_woken r w t' ts')
    else returned (inr none) t ts

-- The wait for room holds a reference to the queue.
unfoldable pub send_wait : Posting → ℕ → Queues → List (Turn Queues) → Outcome Queues (Option Errno)
unfolding send_round modify
send_wait r fuel t ts =
    and_then
      (loop (send_round r) fuel tt (modify r.msqid (λ q. record q { refs = add32 q.refs 1 }) t) ts)
      λ e t' ts'. elim e [
        | some e' ↦ returned (some e') t' ts'
        | none ↦ returned none (modify r.msqid unref t') ts'
      ]

unfoldable pub send_to :
    Posting → ℕ → Queue → Queues → List (Turn Queues) → Outcome Queues (Sys (Unit {0}))
unfolding enqueue send_wait
send_to r fuel q t ts =
    if is_full q
    then (if is_set (bit_and r.msgflg ipc_nowait)
        then returned (fails eagain) t ts
        else and_then (send_wait r fuel t ts)
            λ e t' ts'. elim e [ some e' ↦ returned (fails e') t' ts' | none ↦ enqueue r t' ts' ])
    else enqueue r t ts

unfoldable pub msgsnd : Posting → ℕ → Queues → List (Turn Queues) → Outcome Queues (Sys (Unit {0}))
unfolding send_to
msgsnd r fuel t ts = elim (msg_get_by_id r.msqid t) [
  | none ↦ returned (fails einval) t ts
  | some q ↦
      if not (ipc_have_permissions r.caller q.msg_perm ipc_perm_write)
      then returned (fails eacces) t ts
      else if r.mtype == 0 || is_negative r.mtype
      then returned (fails einval) t ts
      else if q.del
      then returned (fails eidrm) t ts
      else send_to r fuel q t ts
]
