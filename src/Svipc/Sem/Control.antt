-- ===== src/Svipc/Sem/Control.antt =====
-- _sys_semctl, _sys_semget and sem_alloc_id.
use posnk.Base.{
  ℕ, zero, suc, ◌%◌, ◌^◌, Bool, true, false, ◌&&◌, ◌||◌, not, ◌==◌, ltb, if◌then◌else◌, Option,
  none, some, List, [], ◌∷◌, ◌++◌, bit_and, bit_or, add32, sub32, get_elem?,
}
use posnk.Kernel.Permissions.{Process, get_effective_uid, get_effective_gid}
use posnk.Kernel.Synch.{semaphore_add, semaphore_init}
use posnk.Svipc.Perm.{
  IpcPerm, is_set, ipc_have_permissions, ipc_is_creator, ipc_perm_read, ipc_perm_write,
}
use posnk.Svipc.Table.{
  eperm, enoent, enomem, eacces, efault, eexist, einval, enfile, eidrm, Sys, value, fails,
}
use posnk.Svipc.Msg.Control.{ipc_creat, ipc_excl, ipc_private, not_mode_mask}
use posnk.Svipc.Sem.{
  SysvSem, SemInfo, SemTable, int_negative, sem_get_by_id, sem_get_by_key, modify, sem_do_delete,
}
use posnk.Svipc.Sem.Operate.{set_sem}

-- The commands, with what they take from user memory (`none` is a failed copy), whether a copy to
-- user memory succeeds and whether there is memory for the kernel's copy.
pub data SemCommand : Type 0 where
  getval getpid getncnt getzcnt : SemCommand
  setval : ℕ → SemCommand
  getall : (allocated copied : Bool) → SemCommand
  setall : (allocated : Bool) → Option (List ℕ) → SemCommand
  ipc_stat : (copied : Bool) → SemCommand
  ipc_set : Option IpcPerm → SemCommand
  ipc_rmid : SemCommand
  other : SemCommand

-- The value of the call, or what it copies to user memory.
pub data SemValue : Type 0 where
  number : ℕ → SemValue
  values : List ℕ → SemValue
  status : SemInfo → SemValue

-- A result with the new table; a read behind the last semaphore is a fault.
pub data SemReply : Type 0 where
  reply : Sys SemValue → SemTable → SemReply
  out_of_bounds : SemReply

-- `allbuf[n] = info->sems[n].semval` for the first `nsems` semaphores.
unfoldable pub read_all : ℕ → List SysvSem → List ℕ
read_all zero sems = []
read_all (suc n) [] = []
read_all (suc n) (s ∷ sems) = s.semval ∷ read_all n sems

-- `info->sems[n].semval = allbuf[n]` for the first `nsems` semaphores.
unfoldable pub write_all : ℕ → List ℕ → List SysvSem → List SysvSem
write_all zero vals sems = sems
write_all (suc n) [] sems = sems
write_all (suc n) (v ∷ vals) [] = []
write_all (suc n) (v ∷ vals) (s ∷ sems) = record s { semval = v } ∷ write_all n vals sems

abbrev pub may_change : Process → SemInfo → Bool
may_change p info =
    ipc_is_creator p info.sem_perm || ipc_have_permissions p info.sem_perm ipc_perm_write

unfoldable pub mark_deleted : SemInfo → SemInfo
unfolding semaphore_add
mark_deleted info = record info {
  del = true;
  zwaitsem = semaphore_add info.zwaitsem 999999;
  nwaitsem = semaphore_add info.nwaitsem 999999;
}

abbrev set_perm : IpcPerm → SemInfo → SemInfo
set_perm u info = record info {
  sem_perm = record (info.sem_perm) {
    uid = u.uid;
    gid = u.gid;
    mode = bit_or (bit_and info.sem_perm.mode not_mode_mask) (bit_and u.mode 0x1FF);
  };
}

-- A field of one semaphore.
unfoldable pub query : Process → ℕ → (SysvSem → ℕ) → SemInfo → SemTable → SemReply
query p semnum field info t =
    if not (ipc_have_permissions p info.sem_perm ipc_perm_read)
    then reply (fails eacces) t
    else elim (get_elem? info.sems semnum) [
      | none ↦ out_of_bounds
      | some s ↦ reply (value (number (field s))) t
    ]

abbrev ok : SemTable → SemReply
ok t = reply (value (number 0)) t

unfoldable pub command : Process → ℕ → ℕ → SemCommand → SemInfo → SemTable → SemReply
unfolding query modify sem_do_delete mark_deleted read_all write_all
command p id semnum getval info t = query p semnum (λ s. s.semval) info t
command p id semnum getpid info t = query p semnum (λ s. s.sempid) info t
command p id semnum getncnt info t = query p semnum (λ s. s.semncnt) info t
command p id semnum getzcnt info t = query p semnum (λ s. s.semzcnt) info t
command p id semnum (setval v) info t =
    if not (ipc_have_permissions p info.sem_perm ipc_perm_write)
    then reply (fails eacces) t
    else elim (get_elem? info.sems semnum) [
      | none ↦ out_of_bounds
      | some s ↦ ok (modify id (set_sem semnum (record s { semval = v % 2 ^ 16 })) t)
    ]
command p id semnum (getall allocated copied) info t =
    if not (ipc_have_permissions p info.sem_perm ipc_perm_read)
    then reply (fails eacces) t
    else if not allocated
    then reply (fails enomem) t
    else if not copied
    then reply (fails efault) t
    else reply (value (values (read_all info.sem_nsems info.sems))) t
command p id semnum (setall allocated from) info t =
    if not (ipc_have_permissions p info.sem_perm ipc_perm_write)
    then reply (fails eacces) t
    else if not allocated
    then reply (fails enomem) t
    else elim from [
      | none ↦ reply (fails efault) t
      | some vals ↦ ok (modify id (λ q. record q { sems = write_all q.sem_nsems vals q.sems }) t)
    ]
command p id semnum (ipc_stat copied) info t =
    if not (ipc_have_permissions p info.sem_perm ipc_perm_read)
    then reply (fails eacces) t
    else if copied
    then reply (value (status info)) t
    else reply (fails efault) t
command p id semnum (ipc_set from) info t =
    if not (may_change p info)
    then reply (fails eperm) t
    else elim from [ none ↦ reply (fails efault) t | some u ↦ ok (modify id (set_perm u) t) ]
command p id semnum ipc_rmid info t =
    if not (may_change p info)
    then reply (fails eperm) t
    else if info.refs == 0
    then ok (sem_do_delete id (modify id (λ q. record q { del = true }) t))
    else ok (modify id mark_deleted t)
command p id semnum other info t = reply (fails einval) t

-- The test of the source lets the number of semaphores itself pass as `semnum`.
unfoldable pub semctl : Process → (id semnum : ℕ) → SemCommand → SemTable → SemReply
unfolding command
semctl p id semnum cmd t = elim (sem_get_by_id id t) [
  | none ↦ reply (fails einval) t
  | some info ↦
      if int_negative semnum || ltb info.sem_nsems semnum
      then reply (fails einval) t
      else command p id semnum cmd info t
]

-- The counter stays where it would become negative or 0.
unfoldable pub sem_alloc_id : SemTable → Option ℕ × SemTable
sem_alloc_id t =
    let ctr = add32 t.sem_id_ctr 1 in
    if ctr == 0 || int_negative ctr
    then (none, record t { sem_id_ctr = sub32 ctr 1 })
    else (some t.sem_id_ctr, record t { sem_id_ctr = ctr })

unfoldable pub fresh_sems : ℕ → List SysvSem
fresh_sems zero = []
fresh_sems (suc n) = record { semval = 0; sempid = 0; semncnt = 0; semzcnt = 0 } ∷ fresh_sems n

-- `sem_nsems` is an unsigned short.
unfoldable pub new_set : Process → (key nsems flags system_time id : ℕ) → SemInfo
unfolding fresh_sems get_effective_uid get_effective_gid
new_set p key nsems flags system_time id = record {
  key = key;
  id = id;
  del = false;
  refs = 0;
  nwaitsem = semaphore_init;
  zwaitsem = semaphore_init;
  sem_perm = record {
    uid = get_effective_uid p;
    gid = get_effective_gid p;
    cuid = get_effective_uid p;
    cgid = get_effective_gid p;
    mode = bit_and flags 0x1FF;
  };
  sem_nsems = nsems % 2 ^ 16;
  sem_otime = 0;
  sem_ctime = system_time;
  sems = fresh_sems (if int_negative nsems then 0 else nsems);
}

-- A set is made, unless memory or ids have run out.
unfoldable pub create_set :
    Process
    → (key nsems flags system_time : ℕ) → (info_allocated sems_allocated : Bool) → SemTable
    → Sys ℕ × SemTable
unfolding sem_alloc_id new_set
create_set p key nsems flags system_time info_allocated sems_allocated t =
    if not info_allocated || not sems_allocated
    then (fails enomem, t)
    else let (id, t') = sem_alloc_id t in
      elim id [
        | none ↦ (fails enfile, t')
        | some i ↦ (
          value i,
          record t' { sem_list = t'.sem_list ++ (new_set p key nsems flags system_time i ∷ []) },
        )
      ]

-- The set that a key names, if it is not IPC_PRIVATE.
unfoldable pub lookup : ℕ → SemTable → Option SemInfo
lookup key t = if key == ipc_private then none else sem_get_by_key key t

-- `nsems < info->info.sem_nsems` is a signed comparison.
unfoldable pub semget :
    Process
    → (key nsems flags system_time : ℕ) → (info_allocated sems_allocated : Bool) → SemTable
    → Sys ℕ × SemTable
unfolding create_set lookup
semget p key nsems flags system_time info_allocated sems_allocated t = elim (lookup key t) [
  | some info ↦
      if is_set (bit_and flags ipc_creat) && is_set (bit_and flags ipc_excl)
      then (fails eexist, t)
      else if not (ipc_have_permissions p info.sem_perm ipc_perm_read)
      then (fails eacces, t)
      else if not (nsems == 0) && (int_negative nsems || ltb nsems info.sem_nsems)
      then (fails einval, t)
      else if info.del
      then (fails eidrm, t)
      else (value info.id, t)
  | none ↦
      if not (key == ipc_private) && not (is_set (bit_and flags ipc_creat))
      then (fails enoent, t)
      else create_set p key nsems flags system_time info_allocated sems_allocated t
]
