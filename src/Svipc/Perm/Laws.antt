-- ===== src/Svipc/Perm/Laws.antt =====
-- What the access checks of ipc.c grant.
use posnk.Base.{ℕ, ◌/◌, ◌^◌, ◌≡◌, bit_and, Bool, arith, leb, ◌&&◌, ◌||◌}
use posnk.Kernel.Permissions.{Process, perm_class_owner, perm_class_group, get_perm_class}
use posnk.Kernel.Permissions.Laws.{get_perm_class_bounds}
use posnk.Svipc.Perm.{IpcPerm, is_set, ipc_have_permissions}

-- The mode's bits for a class grant one of the requested rights.
abbrev pub grants : ℕ → ℕ → Bool
grants bits req = is_set (bit_and req (bit_and bits 7))

-- Access is allowed exactly when the bits for others grant it, or those for the group do and the
-- caller is of class group or owner, or those for the owner do and the caller is of class owner:
-- a class has the rights of every class behind it.
pub ipc_have_permissions_lem :
    (p : Process) (ipc : IpcPerm) (req : ℕ)
    → ipc_have_permissions p ipc req ≡ (
        grants ipc.mode req
        || (leb (get_perm_class p ipc.uid ipc.gid) perm_class_group
            && grants (ipc.mode / 2 ^ 3) req)
        || (leb (get_perm_class p ipc.uid ipc.gid) perm_class_owner
            && grants (ipc.mode / 2 ^ 6) req))
unfolding ipc_have_permissions
ipc_have_permissions_lem p ipc req = ground (arith, get_perm_class_bounds p ipc.uid ipc.gid)
