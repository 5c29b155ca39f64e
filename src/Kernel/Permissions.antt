-- ===== src/Kernel/Permissions.antt =====
-- kernel/permissions.c: the class of access that the current process has to a resource. The
-- process that `current_process` points to is an argument.
pub mod Laws
use posnk.Base.{ℕ, Bool, ◌==◌, ◌&&◌, ◌||◌, if◌then◌else◌}

-- The credentials of `process_info_t`, with its process id.
pub record Process : Type 0 where
  pub pid : ℕ
  pub uid : ℕ
  pub effective_uid : ℕ
  pub gid : ℕ
  pub effective_gid : ℕ

-- PERM_CLASS_NONE, PERM_CLASS_OWNER, PERM_CLASS_GROUP and PERM_CLASS_OTHER.
abbrev pub perm_class_none : ℕ
perm_class_none = 0

abbrev pub perm_class_owner : ℕ
perm_class_owner = 1

abbrev pub perm_class_group : ℕ
perm_class_group = 2

abbrev pub perm_class_other : ℕ
perm_class_other = 3

unfoldable pub get_uid : Process → ℕ
get_uid p = p.uid

unfoldable pub get_effective_uid : Process → ℕ
get_effective_uid p = p.effective_uid

-- The source returns the user id here.
unfoldable pub get_gid : Process → ℕ
get_gid p = p.uid

unfoldable pub get_effective_gid : Process → ℕ
get_effective_gid p = p.effective_gid

-- The fourth comparison of the source is of the resource's user id with `r_gid`.
unfoldable pub get_perm_class : Process → (resource_uid resource_gid : ℕ) → ℕ
unfolding get_uid get_effective_uid get_gid get_effective_gid
get_perm_class p resource_uid resource_gid =
    let uid = get_effective_uid p in
    let gid = get_effective_gid p in
    let r_uid = get_uid p in
    let r_gid = get_gid p in
    if uid == 0 && gid == 0
    then perm_class_owner
    else if resource_uid == uid || resource_uid == r_uid
    then perm_class_owner
    else if resource_gid == gid || resource_uid == r_gid
    then perm_class_group
    else perm_class_other
