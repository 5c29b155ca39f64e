-- ===== src/Svipc/Msg/Control.antt =====
-- _sys_msgctl, _sys_msgget and msg_alloc_id.
use posnk.Base.{
  ℕ, Bool, true, false, ◌&&◌, ◌||◌, not, ◌==◌, if◌then◌else◌, Option, none, some, [], ◌∷◌, ◌++◌,
  bit_and, bit_or, add32, sub32,
}
use posnk.Kernel.Permissions.{Process, get_effective_uid, get_effective_gid}
use posnk.Kernel.Synch.{semaphore_add, semaphore_init}
use posnk.Svipc.Perm.{
  IpcPerm, is_set, ipc_have_permissions, ipc_is_creator, ipc_is_owner, ipc_is_privileged,
  ipc_perm_read, ipc_perm_oper,
}
use posnk.Svipc.Table.{
  eperm, enoent, enomem, eacces, efault, eexist, einval, enfile, eidrm, Sys, value, fails,
}
use posnk.Svipc.Msg.{
  Queue, Queues, msg_size_limit, is_negative, msg_get_by_id, msg_get_by_key, modify, msg_do_delete,
}

-- IPC_CREAT, IPC_EXCL and IPC_PRIVATE.
abbrev pub ipc_creat : ℕ
ipc_creat = 512

abbrev pub ipc_excl : ℕ
ipc_excl = 1024

abbrev pub ipc_private : ℕ
ipc_private = 0xFFFFFFFE

-- The 32-bit complement of 0x1FF.
abbrev pub not_mode_mask : ℕ
not_mode_mask = 0xFFFFFE00

-- The commands; what IPC_SET copies from user memory, where `none` is a failed copy, is part of
-- the command, and so is whether the copy to user memory of IPC_STAT succeeds.
pub data Command : Type 0 where
  ipc_stat : (copied : Bool) → Command
  ipc_set : (ubuf : Option IpcPerm) → Command
  ipc_rmid : Command
  other : Command

-- The result of IPC_STAT is the queue that is copied out.
abbrev pub Status : Type 0
Status = Sys (Option Queue)

abbrev pub may_control : Process → Queue → Bool
may_control p q = ipc_is_creator p q.msg_perm || ipc_is_owner p q.msg_perm || ipc_is_privileged p

-- The new owner and access bits.
abbrev pub set_perm : IpcPerm → IpcPerm → IpcPerm
set_perm u perm = record perm {
  uid = u.uid;
  gid = u.gid;
  mode = bit_or (bit_and perm.mode not_mode_mask) (bit_and u.mode 0x1FF);
}

-- Sleepers are woken to find the queue deleted.
unfoldable pub mark_deleted : Queue → Queue
unfolding semaphore_add
mark_deleted q = record q {
  del = true;
  rwaitsem = semaphore_add q.rwaitsem 999999;
  swaitsem = semaphore_add q.swaitsem 999999;
}

unfoldable pub control : Process → ℕ → Command → Queue → Queues → Status × Queues
unfolding modify msg_do_delete mark_deleted
control p id (ipc_stat copied) q t =
    if not (ipc_have_permissions p q.msg_perm ipc_perm_read)
    then (fails eacces, t)
    else if copied
    then (value (some q), t)
    else (fails efault, t)
control p id (ipc_set ubuf) q t = if not (may_control p q) then (fails eperm, t) else elim ubuf [
  | none ↦ (fails efault, t)
  | some u ↦ (value none, modify id (λ q. record q { msg_perm = set_perm u q.msg_perm }) t)
]
control p id ipc_rmid q t =
    if not (may_control p q)
    then (fails eperm, t)
    else if q.refs == 0
    then (value none, msg_do_delete id (modify id (λ q. record q { del = true }) t))
    else (value none, modify id mark_deleted t)
control p id other q t = (fails einval, t)

unfoldable pub msgctl : Process → ℕ → Command → Queues → Status × Queues
unfolding control
msgctl p id cmd t = elim (msg_get_by_id id t) [
  | none ↦ (fails einval, t)
  | some q ↦ control p id cmd q t
]

-- The counter stays where it would become negative or 0.
unfoldable pub msg_alloc_id : Queues → Option ℕ × Queues
msg_alloc_id t =
    let ctr = add32 t.msg_id_ctr 1 in
    if ctr == 0 || is_negative ctr
    then (none, record t { msg_id_ctr = sub32 ctr 1 })
    else (some t.msg_id_ctr, record t { msg_id_ctr = ctr })

unfoldable pub new_queue : Process → (key flags system_time id : ℕ) → Queue
unfolding get_effective_uid get_effective_gid
new_queue p key flags system_time id = record {
  key = key;
  id = id;
  del = false;
  refs = 0;
  swaitsem = semaphore_init;
  rwaitsem = semaphore_init;
  msg_perm = record {
    uid = get_effective_uid p;
    gid = get_effective_gid p;
    cuid = get_effective_uid p;
    cgid = get_effective_gid p;
    mode = bit_and flags 0x1FF;
  };
  msg_qnum = 0;
  msg_qbytes = msg_size_limit;
  msg_lspid = 0;
  msg_lrpid = 0;
  msg_stime = 0;
  msg_rtime = 0;
  msg_ctime = system_time;
  msgs = [];
  used_bytes = 0;
}

-- A queue is made, unless memory or ids have run out.
unfoldable pub create_queue :
    Process → (key flags system_time : ℕ) → (allocated : Bool) → Queues → Sys ℕ × Queues
unfolding msg_alloc_id new_queue
create_queue p key flags system_time allocated t =
    if not allocated
    then (fails enomem, t)
    else let (id, t') = msg_alloc_id t in
      elim id [
        | none ↦ (fails enfile, t')
        | some i ↦ (
          value i,
          record t' { msg_list = t'.msg_list ++ (new_queue p key flags system_time i ∷ []) },
        )
      ]

unfoldable pub msgget :
    Process → (key flags system_time : ℕ) → (allocated : Bool) → Queues → Sys ℕ × Queues
unfolding create_queue
msgget p key flags system_time allocated t =
    elim (if key == ipc_private then none else msg_get_by_key key t) [
      | some q ↦
          if is_set (bit_and flags ipc_creat) && is_set (bit_and flags ipc_excl)
          then (fails eexist, t)
          else if not (ipc_have_permissions p q.msg_perm ipc_perm_oper)
          then (fails eacces, t)
          else if q.del
          then (fails eidrm, t)
          else (value q.id, t)
      | none ↦
          if not (key == ipc_private) && not (is_set (bit_and flags ipc_creat))
          then (fails enoent, t)
          else create_queue p key flags system_time allocated t
    ]
