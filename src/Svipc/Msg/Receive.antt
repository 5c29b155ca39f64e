-- ===== src/Svipc/Msg/Receive.antt =====
-- _sys_msgrcv.
use posnk.Base.{
  ℕ, ◌&&◌, not, ltb, if◌then◌else◌, none, some, List, bit_and, add32, sub32, ◌⊎◌, inl, inr,
}
use posnk.Base.Memory.{Memory, copy}
use posnk.Kernel.Permissions.{Process}
use posnk.Kernel.Outcome.{Turn, Outcome, returned, and_then}
use posnk.Kernel.Scheduler.{WaitResult, wait_ok}
use posnk.Kernel.Synch.{semaphore_up, interruptible_down}
use posnk.Kernel.Loop.{Round, loop}
use posnk.Svipc.Perm.{is_set, ipc_have_permissions, ipc_perm_read}
use posnk.Svipc.Table.{
  Errno, eintr, e2big, eacces, einval, enomsg, eidrm, Sys, value, fails, find, remove,
}
use posnk.Svipc.Msg.{
  Message, Queue, Queues, long_size, msg_get_by_id, msg_recv_iterator, modify, with_queue, unref,
  msg_release, rwait_sem,
}

-- IPC_NOWAIT and MSG_NOERROR.
abbrev pub ipc_nowait : ℕ
ipc_nowait = 2048

abbrev pub msg_noerror : ℕ
msg_noerror = 1

-- The arguments of the call, the calling process and the time; `msgp` holds what the caller's
-- buffer held before. `msgsz` is the argument plus the size of the message type.
pub record Request : Type 0 where
  pub caller : Process
  pub system_time : ℕ
  pub msqid : ℕ
  pub msgp : Memory
  pub msgsz : ℕ
  pub msgtyp : ℕ
  pub msgflg : ℕ

-- The number of bytes received, and the caller's buffer.
abbrev pub Received : Type 0
Received = Sys (ℕ × Memory)

-- The message is unlinked, and the counters of the queue follow.
unfoldable pub take_message : Request → Message → Queue → Queue
unfolding semaphore_up
take_message r msg q = record q {
  msgs = remove (msg_recv_iterator r.msgtyp) q.msgs;
  msg_qnum = sub32 q.msg_qnum 1;
  used_bytes = sub32 q.used_bytes msg.msize;
  refs = sub32 q.refs 1;
  msg_lrpid = r.caller.pid;
  msg_rtime = r.system_time;
  swaitsem = semaphore_up q.swaitsem;
}

-- What follows once a message has been found: `refs` is decremented on each of these paths.
unfoldable pub receive : Request → Message → Queues → List (Turn Queues) → Outcome Queues Received
unfolding take_message modify
receive r msg t ts =
    if ltb r.msgsz msg.msize && not (is_set (bit_and r.msgflg msg_noerror))
    then returned (fails e2big) (modify r.msqid unref t) ts
    else let readsz = if ltb r.msgsz msg.msize then r.msgsz else msg.msize in
      returned (value (sub32 readsz long_size, copy r.msgp 0 msg.mtext 0 readsz))
        (modify r.msqid (take_message r msg) t) ts

-- After a wait: an interrupt, a deleted queue, a message, or none yet.
unfoldable pub receive_woken :
    Request
    → WaitResult
    → Queues
    → List (Turn Queues)
    → Outcome Queues (Unit {0} ⊎ (Errno ⊎ Message))
unfolding msg_release
receive_woken r wait_ok t ts = with_queue r.msqid t λ q.
    if q.del
    then returned (inr (inl eidrm)) (msg_release r.msqid t) ts
    else elim (find (msg_recv_iterator r.msgtyp) q.msgs) [
      | none ↦ returned (inl tt) t ts
      | some msg ↦ returned (inr (inr msg)) t ts
    ]
receive_woken r _ t ts =
    with_queue r.msqid t λ q. returned (inr (inl eintr)) (msg_release r.msqid t) ts

unfoldable pub receive_round : Request → Round Queues (Unit {0}) (Errno ⊎ Message)
unfolding receive_woken
receive_round r l t ts =
    and_then (interruptible_down (rwait_sem r.msqid) t ts) λ w t' ts'. receive_woken r w t' ts'

-- The wait for a message holds a reference to the queue.
unfoldable pub receive_wait :
    Request → ℕ → Queues → List (Turn Queues) → Outcome Queues (Errno ⊎ Message)
unfolding receive_round modify
receive_wait r fuel t ts =
    loop (receive_round r) fuel tt (modify r.msqid (λ q. record q { refs = add32 q.refs 1 }) t) ts

unfoldable pub receive_from :
    Request → ℕ → Queue → Queues → List (Turn Queues) → Outcome Queues Received
unfolding receive receive_wait
receive_from r fuel q t ts = elim (find (msg_recv_iterator r.msgtyp) q.msgs) [
  | some msg ↦ receive r msg t ts
  | none ↦
      if is_set (bit_and r.msgflg ipc_nowait)
      then returned (fails enomsg) t ts
      else and_then (receive_wait r fuel t ts) λ found t' ts'. elim found [
        | inl e ↦ returned (fails e) t' ts'
        | inr msg ↦ receive r msg t' ts'
      ]
]

unfoldable pub msgrcv : Request → ℕ → Queues → List (Turn Queues) → Outcome Queues Received
unfolding receive_from
msgrcv r fuel t ts =
    let r' = record r { msgsz = add32 r.msgsz long_size } in
    elim (msg_get_by_id r.msqid t) [
      | none ↦ returned (fails einval) t ts
      | some q ↦
          if not (ipc_have_permissions r.caller q.msg_perm ipc_perm_read)
          then returned (fails eacces) t ts
          else if q.del
          then returned (fails eidrm) t ts
          else receive_from r' fuel q t ts
    ]
