-- ===== src/Svipc/Msg/Transfer.antt =====
-- What a message queue delivers, and the reference count of its receivers.
use posnk.Base.{
  All, ℕ, ◌≤◌, ◌≡◌, refl, true, false, ◌==◌, none, some, List, ◌∷◌, ◌++◌, arith, add32, sub32,
  le→ltb,
}
use posnk.Base.Memory.{Memory, copy, slice, slice-copy}
use posnk.Kernel.Permissions.{Process}
use posnk.Kernel.Outcome.{Turn, returned}
use posnk.Svipc.Perm.{ipc_have_permissions, ipc_perm_read}
use posnk.Svipc.Table.{value, find}
use posnk.Svipc.Table.Laws.{find-remove}
use posnk.Svipc.Msg.{Message, Queue, Queues, long_size, msg_get_by_id, msg_recv_iterator, modify}
use posnk.Svipc.Msg.Receive.{Request, take_message, receive_from, msgrcv}
use posnk.Svipc.Msg.Control.{ipc_rmid, may_control, mark_deleted, msgctl}
use posnk.Svipc.Msg.Waiting.{msg_get_by_id-modify}

-- The call reaches the queue: it is there, readable by the caller and not marked for deletion.
pub record IsReadable (r : Request) (t : Queues) (q : Queue) : Type 0 where
  pub present : msg_get_by_id r.msqid t ≡ some q
  pub allowed : ipc_have_permissions r.caller q.msg_perm ipc_perm_read ≡ true
  pub kept : q.del ≡ false

-- The request as `receive` sees it.
abbrev pub sized : Request → Request
sized r = record r { msgsz = add32 r.msgsz long_size }

-- The caller's buffer after a receive of the whole message.
abbrev pub filled : Request → Message → Memory
filled r msg = copy r.msgp 0 msg.mtext 0 msg.msize

module _ (r : Request) (t : Queues) (q : Queue) (readable : IsReadable r t q) where
  module _ (msg : Message) (hit : find (msg_recv_iterator r.msgtyp) q.msgs ≡ some msg) where
    taken-present :
        msg_get_by_id r.msqid (modify r.msqid (take_message (sized r) msg) t)
        ≡ some (take_message (sized r) msg q)
    unfolding take_message
    taken-present =
        msg_get_by_id-modify r.msqid (take_message (sized r) msg) t readable.present refl

    msgrcv_run :
        (fuel : ℕ) (ts : List (Turn Queues))
        → msg.msize ≤ add32 r.msgsz long_size
        → msgrcv r fuel t ts
          ≡ returned
              (value (sub32 msg.msize long_size, filled r msg))
              (modify r.msqid (take_message (sized r) msg) t)
              ts
    unfolding msgrcv
    msgrcv_run fuel ts fits = rw (
      readable.present,
      msgrcv,
      readable.allowed,
      readable.kept,
      hit,
      receive_from,
      le→ltb (add32 r.msgsz long_size) msg.msize fits,
    )

    -- A receive that finds a message which fits its buffer returns at once with the bytes of the
    -- message. That is the oldest message that the request accepts; the others stay in their order,
    -- and a reference to the queue is given back although the call has taken none.
    pub msgrcv_found :
        (fuel : ℕ) (ts : List (Turn Queues))
        → msg.msize ≤ add32 r.msgsz long_size
        → (t' : Queues) × (q' : Queue) × (into : Memory) × (before : List Message) × (after : List
            Message)
          × (msgrcv r fuel t ts ≡ returned (value (sub32 msg.msize long_size, into)) t' ts)
          × (msg_get_by_id r.msqid t' ≡ some q')
          × (slice into 0 msg.msize ≡ slice msg.mtext 0 msg.msize)
          × (q.msgs ≡ before ++ (msg ∷ after))
          × All (λ m. msg_recv_iterator r.msgtyp m ≡ false) before
          × (msg_recv_iterator r.msgtyp msg ≡ true)
          × (q'.msgs ≡ before ++ after)
          × (q'.refs ≡ sub32 q.refs 1)
    unfolding take_message
    msgrcv_found fuel ts fits =
        let (before, after, split, miss, accepted, rest) =
          find-remove (msg_recv_iterator r.msgtyp) q.msgs hit in
        (
          modify r.msqid (take_message (sized r) msg) t,
          take_message (sized r) msg q,
          filled r msg,
          before,
          after,
          msgrcv_run fuel ts fits,
          taken-present,
          slice-copy r.msgp 0 msg.mtext 0 msg.msize,
          split,
          miss,
          accepted,
          rest,
          refl,
        )

    -- After such a receive from a queue that nobody waited on, the reference count is -1, and
    -- IPC_RMID by a process that may remove the queue reports success but leaves it in the table.
    pub msgrcv_leak :
        (fuel : ℕ) (ts : List (Turn Queues)) (p : Process)
        → msg.msize ≤ add32 r.msgsz long_size
        → q.refs ≡ 0
        → may_control p q ≡ true
        → (t' : Queues) × (msgrcv r fuel t ts
            ≡ returned (value (sub32 msg.msize long_size, filled r msg)) t' ts)
          × ((msgctl p r.msqid ipc_rmid t').0 ≡ value none)
          × (msg_get_by_id r.msqid (msgctl p r.msqid ipc_rmid t').1
              ≡ some (mark_deleted (take_message (sized r) msg q)))
    unfolding msgctl take_message
    msgrcv_leak fuel ts p fits none_waits may =
        let refs : (sub32 q.refs 1 == 0) ≡ false = ground arith in
        (
          modify r.msqid (take_message (sized r) msg) t,
          msgrcv_run fuel ts fits,
          rw (taken-present, msgctl, may, refs),
          rw (taken-present, msgctl, may, refs)
              (msg_get_by_id-modify r.msqid mark_deleted _ taken-present refl),
        )
