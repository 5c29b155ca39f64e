-- ===== src/Tests/Messages.antt =====
-- Message queues.
use posnk.Base.{
  All, ℕ, ◌+◌, ◌^◌, ◌≡◌, refl, ◌<◌, none, true, false, some, List, [], ◌∷◌, ◌++◌, arith, sub32,
}
use posnk.Base.Memory.{Memory, slice}
use posnk.Kernel.Permissions.{Process, get_perm_class}
use posnk.Kernel.Outcome.{Turn, returned, Ends}
use posnk.Kernel.Synch.Wait.{patience}
use posnk.Svipc.Perm.{ipc_have_permissions, ipc_is_creator}
use posnk.Svipc.Table.{value, find}
use posnk.Svipc.Msg.{Message, Queue, Queues, msg_get_by_id, msg_recv_iterator, rwait_sem, swait_sem}
use posnk.Svipc.Msg.Receive.{Request, msgrcv, take_message}
use posnk.Svipc.Msg.Send.{Posting, message, msgsnd}
use posnk.Svipc.Msg.Control.{ipc_rmid, may_control, msgctl, mark_deleted}
use posnk.Svipc.Msg.Counted.{AllCounted}
use posnk.Svipc.Msg.Waiting.{IsWaited}
use posnk.Svipc.Msg.Receiving.{msgrcv-AllCounted}
use posnk.Svipc.Msg.Sending.{msgsnd-AllCounted}
use posnk.Svipc.Msg.Transfer.{IsReadable, sized, filled, msgrcv_found, msgrcv_leak}
use posnk.Svipc.Msg.RoundTrip.{IsSendable, msgrcv-msgsnd}

abbrev owner : Process
owner = record { pid = 31; uid = 5; effective_uid = 5; gid = 6; effective_gid = 6 }

abbrev empty : Queue
empty = record {
  key = 77;
  id = 2;
  del = false;
  refs = 0;
  swaitsem = 0;
  rwaitsem = 0;
  msg_perm = record { uid = 5; gid = 6; cuid = 5; cgid = 6; mode = 0x180 };
  msg_qnum = 0;
  msg_qbytes = 65536;
  msg_lspid = 0;
  msg_lrpid = 0;
  msg_stime = 0;
  msg_rtime = 0;
  msg_ctime = 0;
  msgs = [];
  used_bytes = 0;
}

abbrev letter : ℕ → Message
letter kind = record { mtype = kind; msize = 7; mtext = λ i. i + kind }

-- Messages of types 4, 3 and 3.
abbrev three : Queue
three = record empty {
  msg_qnum = 3;
  used_bytes = 21;
  rwaitsem = 3;
  msgs = letter 4 ∷ letter 3 ∷ letter 3 ∷ [];
}

abbrev table : Queue → Queues
table q = record { msg_list = q ∷ []; msg_id_ctr = 3 }

abbrev want_three : Request
want_three = record {
  caller = owner;
  system_time = 100;
  msqid = 2;
  msgp = λ _. 0;
  msgsz = 16;
  msgtyp = 3;
  msgflg = 0;
}

abbrev post : Posting
post = record {
  caller = owner;
  system_time = 90;
  msqid = 2;
  mtype = 3;
  msgp = λ i. i;
  msgsz = 12;
  msgflg = 0;
  header_allocated = true;
  text_allocated = true;
}

three-IsReadable : IsReadable want_three (table three) three
unfolding msg_get_by_id find ipc_have_permissions get_perm_class
three-IsReadable = record { present = refl; allowed = refl; kept = refl }

second_letter : find (msg_recv_iterator 3) three.msgs ≡ some (letter 3)
unfolding find msg_recv_iterator
second_letter = refl

empty-IsSendable : IsSendable post (table empty) empty
unfolding msg_get_by_id find ipc_have_permissions get_perm_class
empty-IsSendable = record {
  present = refl;
  allowed = refl;
  kept = refl;
  room = refl;
  positive = refl;
  memory = refl;
}

owner_may_read : ipc_have_permissions owner empty.msg_perm 4 ≡ true
unfolding ipc_have_permissions get_perm_class
owner_may_read = refl

accepts_three : msg_recv_iterator 3 (message post) ≡ true
unfolding msg_recv_iterator
accepts_three = refl

msgrcv_found_example :
    (t' : Queues) × (q' : Queue) × (into : Memory) × (before : List Message) × (after : List
      Message)
    × (msgrcv want_three 0 (table three) [] ≡ returned (value (3, into)) t' [])
    × (msg_get_by_id 2 t' ≡ some q')
    × (slice into 0 7 ≡ slice (letter 3).mtext 0 7)
    × (three.msgs ≡ before ++ (letter 3 ∷ after))
    × All (λ m. msg_recv_iterator 3 m ≡ false) before
    × (msg_recv_iterator 3 (letter 3) ≡ true)
    × (q'.msgs ≡ before ++ after)
    × (q'.refs ≡ sub32 0 1)
msgrcv_found_example =
    msgrcv_found want_three (table three) three three-IsReadable (letter 3) second_letter 0 []
      (omega arith)

owner-may_control : may_control owner three ≡ true
unfolding ipc_is_creator get_perm_class
owner-may_control = refl

msgrcv_leak_example :
    (t' : Queues) × (msgrcv want_three 0 (table three) []
      ≡ returned (value (3, filled want_three (letter 3))) t' [])
    × ((msgctl owner 2 ipc_rmid t').0 ≡ value none)
    × (msg_get_by_id 2 (msgctl owner 2 ipc_rmid t').1
        ≡ some (mark_deleted (take_message (sized want_three) (letter 3) three)))
msgrcv_leak_example =
    msgrcv_leak want_three (table three) three three-IsReadable (letter 3) second_letter 0 [] owner
      (omega arith) refl owner-may_control

msgrcv-msgsnd_example :
    (t' : Queues) × (t'' : Queues) × (into : Memory) × (msgsnd post 0 (table empty) []
      ≡ returned (value tt) t' [])
    × (msgrcv want_three 0 t' [] ≡ returned (value (12, into)) t'' [])
    × (slice into 0 (12 + 4) ≡ slice post.msgp 0 (12 + 4))
msgrcv-msgsnd_example =
    msgrcv-msgsnd post (table empty) empty empty-IsSendable want_three 0 [] refl refl owner_may_read
      accepts_three (omega arith) (omega arith)

-- A signal comes while the call sleeps.
abbrev arrival : Turn Queues
arrival = record { others = λ t. t; signal = true; now = 7 }

empty-AllCounted : AllCounted (table empty)
empty-AllCounted = (
  record {
    number = refl;
    bytes = refl;
    sizes = tt;
    swaitsem = omega arith;
    rwaitsem = omega arith;
  },
  tt,
)

empty-patience : patience (rwait_sem 2) (table empty) (arrival ∷ []) < 2 ^ 32 + 1
unfolding msg_get_by_id find
empty-patience = omega arith

empty-patience_send : patience (swait_sem 2) (table empty) (arrival ∷ []) < 2 ^ 32 + 1
unfolding msg_get_by_id find
empty-patience_send = omega arith

msgrcv-AllCounted_example :
    Ends
      (λ _ t' _. AllCounted t')
      (IsWaited 2)
      (msgrcv want_three (2 ^ 32 + 1) (table empty) (arrival ∷ []))
msgrcv-AllCounted_example =
    msgrcv-AllCounted want_three (2 ^ 32 + 1) (table empty) (arrival ∷ []) empty-AllCounted
      ((λ t i. i), tt) empty-patience

msgsnd-AllCounted_example :
    Ends
      (λ _ t' _. AllCounted t')
      (IsWaited 2)
      (msgsnd post (2 ^ 32 + 1) (table empty) (arrival ∷ []))
msgsnd-AllCounted_example =
    msgsnd-AllCounted post (2 ^ 32 + 1) (table empty) (arrival ∷ []) empty-AllCounted
      ((λ t i. i), tt) empty-patience_send
