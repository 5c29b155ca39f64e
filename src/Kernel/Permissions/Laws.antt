-- ===== src/Kernel/Permissions/Laws.antt =====
-- Which class get_perm_class gives to whom.
use posnk.Base.{ℕ, ◌≡◌}
use posnk.Base.{arith, ◌≤◌, ◌==◌, ◌&&◌, ◌||◌, if◌then◌else◌}
use posnk.Kernel.Permissions.{
  Process, perm_class_owner, perm_class_group, perm_class_other, get_perm_class,
}

-- Every process has one of the three classes.
pub get_perm_class_bounds :
    (p : Process) (u g : ℕ)
    → (perm_class_owner ≤ get_perm_class p u g) × (get_perm_class p u g ≤ perm_class_other)
unfolding get_perm_class
get_perm_class_bounds p u g = ground arith

-- The class is owner exactly for a process whose effective user and group are both 0, and for one
-- whose effective or real user is the resource's; it is group exactly for any other process whose
-- effective group is the resource's. The real group never counts.
pub get_perm_class_lem :
    (p : Process) (u g : ℕ)
    → get_perm_class p u g ≡ (
        if (p.effective_uid == 0 && p.effective_gid == 0) || (u == p.effective_uid || u == p.uid)
        then perm_class_owner
        else if g == p.effective_gid
        then perm_class_group
        else perm_class_other)
unfolding get_perm_class
get_perm_class_lem p u g = ground arith

-- The real group id of a process has no influence on its class, since get_gid returns the user id.
pub get_perm_class-gid :
    (p : Process) (real u g : ℕ)
    → get_perm_class (record p { gid = real }) u g ≡ get_perm_class p u g
unfolding get_perm_class
get_perm_class-gid p real u g = ground arith
