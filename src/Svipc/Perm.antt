-- ===== src/Svipc/Perm.antt =====
-- kernel/svipc/ipc.c: access checks common to semaphores and message queues.
pub mod Laws
use posnk.Base.{ℕ, ◌/◌, ◌^◌, bit_and, Bool, true, false, not, ◌==◌, leb, if◌then◌else◌}
use posnk.Kernel.Permissions.{
  Process, perm_class_none, perm_class_owner, perm_class_group, perm_class_other, get_perm_class,
  get_effective_uid,
}

-- `struct ipc_perm`.
pub record IpcPerm : Type 0 where
  pub uid : ℕ
  pub gid : ℕ
  pub cuid : ℕ
  pub cgid : ℕ
  pub mode : ℕ

-- IPC_PERM_READ, IPC_PERM_WRITE and IPC_PERM_OPER.
abbrev pub ipc_perm_read : ℕ
ipc_perm_read = 4

abbrev pub ipc_perm_write : ℕ
ipc_perm_write = 2

abbrev pub ipc_perm_oper : ℕ
ipc_perm_oper = 1

-- The truth value of an integer as a condition.
abbrev pub is_set : ℕ → Bool
is_set n = not (n == 0)

unfoldable pub ipc_get_min_permissions : IpcPerm → ℕ → ℕ
ipc_get_min_permissions ipc req_mode =
    if is_set (bit_and req_mode (bit_and ipc.mode 7))
    then perm_class_other
    else if is_set (bit_and req_mode (bit_and (ipc.mode / 2 ^ 3) 7))
    then perm_class_group
    else if is_set (bit_and req_mode (bit_and (ipc.mode / 2 ^ 6) 7))
    then perm_class_owner
    else perm_class_none

unfoldable pub ipc_have_permissions : Process → IpcPerm → ℕ → Bool
unfolding ipc_get_min_permissions
ipc_have_permissions p ipc req_mode =
    leb (get_perm_class p ipc.uid ipc.gid) (ipc_get_min_permissions ipc req_mode)

unfoldable pub ipc_is_creator : Process → IpcPerm → Bool
ipc_is_creator p ipc = get_perm_class p ipc.cuid ipc.cgid == perm_class_owner

unfoldable pub ipc_is_owner : Process → IpcPerm → Bool
ipc_is_owner p ipc = get_perm_class p ipc.uid ipc.gid == perm_class_owner

unfoldable pub ipc_is_privileged : Process → Bool
unfolding get_effective_uid
ipc_is_privileged p = get_effective_uid p == 0
