-- ===== src/Svipc/Msg.antt =====
-- kernel/svipc/msg.c: System V message queues. A `long` and an `int` are their 32-bit patterns.
pub mod Receive
pub mod Send
pub mod Control
pub mod Counted
pub mod Waiting
pub mod Receiving
pub mod Sending
pub mod Transfer
pub mod RoundTrip
use posnk.Base.{
  ℕ, ◌+◌, ◌-◌, ◌%◌, ◌^◌, Bool, ◌&&◌, ◌||◌, not, ◌==◌, ltb, leb, if◌then◌else◌, Option, none, some,
  List, [], add32, sub32,
}
use posnk.Base.Memory.{Memory}
use posnk.Kernel.Outcome.{Turn, Outcome, returned, panic}
use posnk.Kernel.Scheduler.{Sem}
use posnk.Svipc.Perm.{IpcPerm}
use posnk.Svipc.Table.{find, update, remove}

-- `sysv_msg_t`: `msize` counts the message type, which stands in the first four bytes.
pub record Message : Type 0 where
  pub mtype : ℕ
  pub msize : ℕ
  pub mtext : Memory

-- `msg_info_t` with the fields of its `struct msqid_ds`.
pub record Queue : Type 0 where
  pub key : ℕ
  pub id : ℕ
  pub del : Bool
  pub refs : ℕ
  pub swaitsem : ℕ
  pub rwaitsem : ℕ
  pub msg_perm : IpcPerm
  pub msg_qnum : ℕ
  pub msg_qbytes : ℕ
  pub msg_lspid : ℕ
  pub msg_lrpid : ℕ
  pub msg_stime : ℕ
  pub msg_rtime : ℕ
  pub msg_ctime : ℕ
  pub msgs : List Message
  pub used_bytes : ℕ

-- `msg_list` and `msg_id_ctr`.
pub record Queues : Type 0 where
  pub msg_list : List Queue
  pub msg_id_ctr : ℕ

abbrev pub msg_init : Queues
msg_init = record { msg_list = []; msg_id_ctr = 0 }

-- CONFIG_SYSV_MSG_SIZE_LIMIT.
abbrev pub msg_size_limit : ℕ
msg_size_limit = 65536

-- `sizeof(long int)`.
abbrev pub long_size : ℕ
long_size = 4

-- Signed comparison of 32-bit patterns, and the sign.
abbrev pub sle : ℕ → ℕ → Bool
sle a b = leb ((a + 2 ^ 31) % 2 ^ 32) ((b + 2 ^ 31) % 2 ^ 32)

abbrev pub is_negative : ℕ → Bool
is_negative a = leb (2 ^ 31) a

abbrev pub msg_id_search_iterator : ℕ → Queue → Bool
msg_id_search_iterator id q = q.id == id

abbrev pub msg_key_search_iterator : ℕ → Queue → Bool
msg_key_search_iterator key q = q.key == key

unfoldable pub msg_get_by_id : ℕ → Queues → Option Queue
msg_get_by_id id t = find (msg_id_search_iterator id) t.msg_list

unfoldable pub msg_get_by_key : ℕ → Queues → Option Queue
msg_get_by_key key t = find (msg_key_search_iterator key) t.msg_list

-- Selects the messages that a request for `rtype` accepts.
unfoldable pub msg_recv_iterator : ℕ → Message → Bool
msg_recv_iterator rtype msg =
    rtype == 0
    || (not (is_negative rtype) && msg.mtype == rtype)
    || (is_negative rtype && sle msg.mtype (sub32 0 rtype))

-- A write through the pointer to the queue with this id.
unfoldable pub modify : ℕ → (Queue → Queue) → Queues → Queues
modify id f t = record t { msg_list = update (msg_id_search_iterator id) f t.msg_list }

-- The messages go with the queue.
unfoldable pub msg_do_delete : ℕ → Queues → Queues
msg_do_delete id t = record t { msg_list = remove (msg_id_search_iterator id) t.msg_list }

-- What is read through the pointer; a pointer to a queue that has been deleted is a fault.
abbrev pub with_queue : {R : Type 0} → ℕ → Queues → (Queue → Outcome Queues R) → Outcome Queues R
with_queue id t k = elim (msg_get_by_id id t) [ none ↦ panic | some q ↦ k q ]

abbrev pub unref : Queue → Queue
unref q = record q { refs = sub32 q.refs 1 }

-- The end of a wait: the reference is dropped, and with the last one a queue marked for deletion
-- goes.
unfoldable pub msg_release : ℕ → Queues → Queues
unfolding modify msg_do_delete
msg_release id t =
    let t' = modify id unref t in
    elim (msg_get_by_id id t') [
      | none ↦ t'
      | some q ↦ if q.del && q.refs == 0 then msg_do_delete id t' else t'
    ]

abbrev pub rwait_sem : ℕ → Sem Queues
rwait_sem id = record {
  value = λ t. elim (msg_get_by_id id t) [ none ↦ 0 | some q ↦ q.rwaitsem ];
  put = λ v t. modify id (λ q. record q { rwaitsem = v }) t;
}

abbrev pub swait_sem : ℕ → Sem Queues
swait_sem id = record {
  value = λ t. elim (msg_get_by_id id t) [ none ↦ 0 | some q ↦ q.swaitsem ];
  put = λ v t. modify id (λ q. record q { swaitsem = v }) t;
}
