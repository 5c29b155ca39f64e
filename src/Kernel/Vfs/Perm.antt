-- ===== src/Kernel/Vfs/Perm.antt =====
-- kernel/vfs/perm.c: access checks on inodes.
use posnk.Base.{ℕ, ◌/◌, ◌^◌, ◌≡◌, bit_and, Bool, leb, if◌then◌else◌}
use posnk.Kernel.Permissions.{
  Process, perm_class_none, perm_class_owner, perm_class_group, perm_class_other, get_perm_class,
}
use posnk.Svipc.Perm.{IpcPerm, is_set, ipc_get_min_permissions, ipc_have_permissions}

-- The fields of `struct inode` that the checks look at.
pub record Inode : Type 0 where
  pub uid : ℕ
  pub gid : ℕ
  pub mode : ℕ

unfoldable pub vfs_get_min_permissions : Inode → ℕ → ℕ
vfs_get_min_permissions inode req_mode =
    if is_set (bit_and req_mode (bit_and inode.mode 7))
    then perm_class_other
    else if is_set (bit_and req_mode (bit_and (inode.mode / 2 ^ 3) 7))
    then perm_class_group
    else if is_set (bit_and req_mode (bit_and (inode.mode / 2 ^ 6) 7))
    then perm_class_owner
    else perm_class_none

unfoldable pub vfs_have_permissions : Process → Inode → ℕ → Bool
unfolding vfs_get_min_permissions
vfs_have_permissions p inode req_mode =
    leb (get_perm_class p inode.uid inode.gid) (vfs_get_min_permissions inode req_mode)

-- A file is open to a process for a request exactly when a System V object with the same owner,
-- group and mode is.
pub vfs_have_permissions_ipc :
    (p : Process) (inode : Inode) (ipc : IpcPerm) (req : ℕ)
    → ipc.uid ≡ inode.uid
    → ipc.gid ≡ inode.gid
    → ipc.mode ≡ inode.mode
    → vfs_have_permissions p inode req ≡ ipc_have_permissions p ipc req
unfolding vfs_have_permissions ipc_have_permissions ipc_get_min_permissions vfs_get_min_permissions
vfs_have_permissions_ipc p inode ipc req u g m = rw (u, g, m)
