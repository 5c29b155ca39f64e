-- ===== src/Svipc/Msg/RoundTrip.antt =====
-- What is sent to a message queue is received from it.
use posnk.Base.{
  ℕ, ◌+◌, ◌^◌, ◌≤◌, ◌<◌, ◌≡◌, refl, ◌∙◌, true, false, ◌==◌, ◌||◌, not, some, List, [], arith, sub32,
}
use posnk.Base.Memory.{Memory, slice, slice-copy}
use posnk.Kernel.Outcome.{Turn, returned}
use posnk.Svipc.Perm.{ipc_have_permissions, ipc_perm_read, ipc_perm_write}
use posnk.Svipc.Table.{value, find}
use posnk.Svipc.Msg.{
  Queue, Queues, long_size, is_negative, msg_get_by_id, msg_recv_iterator, modify,
}
use posnk.Svipc.Msg.Receive.{Request, msgrcv}
use posnk.Svipc.Msg.Send.{Posting, is_full, message, send_size, put_message, msgsnd}
use posnk.Svipc.Msg.Waiting.{msg_get_by_id-modify}
use posnk.Svipc.Msg.Transfer.{IsReadable, msgrcv_found}

-- The call can enqueue its message: the queue is there, writable, not marked for deletion and has
-- room; the message type is positive; there is memory.
pub record IsSendable (s : Posting) (t : Queues) (q : Queue) : Type 0 where
  pub present : msg_get_by_id s.msqid t ≡ some q
  pub allowed : ipc_have_permissions s.caller q.msg_perm ipc_perm_write ≡ true
  pub kept : q.del ≡ false
  pub room : is_full q ≡ false
  pub positive : (s.mtype == 0 || is_negative s.mtype) ≡ false
  pub memory : (not s.header_allocated || not s.text_allocated) ≡ false

module _ (s : Posting) (t : Queues) (q : Queue) (sendable : IsSendable s t q) where
  msgsnd_run :
      (fuel : ℕ) (ts : List (Turn Queues))
      → msgsnd s fuel t ts ≡ returned (value tt) (modify s.msqid (put_message s) t) ts
  unfolding msgsnd
  msgsnd_run fuel ts = rw (
    sendable.present, msgsnd, sendable.allowed, sendable.positive, sendable.kept, sendable.room,
    sendable.memory,
  )

  sent-present : msg_get_by_id s.msqid (modify s.msqid (put_message s) t) ≡ some (put_message s q)
  unfolding put_message
  sent-present = msg_get_by_id-modify s.msqid (put_message s) t sendable.present refl

  sent_found :
      (rtype : ℕ)
      → q.msgs ≡ []
      → msg_recv_iterator rtype (message s) ≡ true
      → find (msg_recv_iterator rtype) (put_message s q).msgs ≡ some (message s)
  unfolding put_message find
  sent_found rtype empty accepts = rw (empty, accepts)

  sent-IsReadable :
      (r : Request)
      → r.msqid ≡ s.msqid
      → ipc_have_permissions r.caller q.msg_perm ipc_perm_read ≡ true
      → IsReadable r (modify s.msqid (put_message s) t) (put_message s q)
  unfolding put_message
  sent-IsReadable r same allowed = record {
    present = rw same sent-present;
    allowed = allowed;
    kept = sendable.kept;
  }

  sent_bytes :
      (into : Memory)
      → send_size s ≡ s.msgsz + long_size
      → slice into 0 (send_size s) ≡ slice (message s).mtext 0 (send_size s)
      → slice into 0 (s.msgsz + long_size) ≡ slice s.msgp 0 (s.msgsz + long_size)
  sent_bytes into m h = rw (← m) (h ∙ slice-copy (λ _. 0) 0 s.msgp 0 (send_size s))

  -- A message sent to an empty queue is received, by a process that may read the queue, whose
  -- request accepts the type of the message and whose buffer is as long: the call returns the
  -- length of the text, and the buffer holds the bytes sent, type and text.
  pub msgrcv-msgsnd :
      (r : Request) (fuel : ℕ) (ts : List (Turn Queues))
      → r.msqid ≡ s.msqid
      → q.msgs ≡ []
      → ipc_have_permissions r.caller q.msg_perm ipc_perm_read ≡ true
      → msg_recv_iterator r.msgtyp (message s) ≡ true
      → s.msgsz ≤ r.msgsz
      → r.msgsz + long_size < 2 ^ 32
      → (t' : Queues) × (t'' : Queues) × (into : Memory) × (msgsnd s fuel t ts
          ≡ returned (value tt) t' ts)
        × (msgrcv r fuel t' ts ≡ returned (value (s.msgsz, into)) t'' ts)
        × (slice into 0 (s.msgsz + long_size) ≡ slice s.msgp 0 (s.msgsz + long_size))
  msgrcv-msgsnd r fuel ts same empty allowed accepts fits small =
      let t' = modify s.msqid (put_message s) t in
      let got =
        msgrcv_found r t' (put_message s q) (sent-IsReadable r same allowed) (message s)
          (sent_found r.msgtyp empty accepts) fuel ts (omega arith) in
      let n : sub32 (send_size s) long_size ≡ s.msgsz = omega arith in
      let m : send_size s ≡ s.msgsz + long_size = omega arith in
      (t', got.0, got.2, msgsnd_run fuel ts, rw n at (got.5), sent_bytes got.2 m got.7)
