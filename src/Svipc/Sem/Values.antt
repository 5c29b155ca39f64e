-- ===== src/Svipc/Sem/Values.antt =====
-- Reading and writing the values of a set with _sys_semctl, and _sys_semget on a set that is there.
use posnk.Base.{
  ℕ, zero, suc, ◌<◌, ◌^◌, ◌≡◌, ◌≢◌, refl, ap, true, false, ◌||◌, ◌&&◌, if◌then◌else◌, ltb, some,
  List, [], ◌∷◌, arith, length, get_elem?-length, Bool-cases, inl, inr, le→ltb, ne→==, bit_and,
}
use posnk.Kernel.Permissions.{Process}
use posnk.Svipc.Perm.{is_set, ipc_have_permissions, ipc_perm_read, ipc_perm_write}
use posnk.Svipc.Table.{einval, value, fails}
use posnk.Svipc.Msg.Control.{ipc_creat, ipc_excl, ipc_private}
use posnk.Svipc.Sem.{
  SysvSem, SemInfo, SemTable, int_negative, sem_get_by_id, sem_get_by_key, modify,
}
use posnk.Svipc.Sem.Single.{sem_get_by_id-modify}
use posnk.Svipc.Sem.Control.{
  getval, getall, setall, number, values, reply, out_of_bounds, read_all, write_all, query, command,
  semctl, lookup, semget,
}

-- What `semctl` needs of the set: as many semaphores as `sem_nsems` says, and a caller who may read.
pub record IsShown (p : Process) (id : ℕ) (t : SemTable) (q : SemInfo) : Type 0 where
  pub present : sem_get_by_id id t ≡ some q
  pub readable : ipc_have_permissions p q.sem_perm ipc_perm_read ≡ true
  pub sized : length q.sems ≡ q.sem_nsems

read_all-write_all :
    (n : ℕ) (vals : List ℕ) (sems : List SysvSem)
    → length vals ≡ n
    → length sems ≡ n
    → read_all n (write_all n vals sems) ≡ vals
unfolding read_all write_all
read_all-write_all zero [] sems h k = refl
read_all-write_all zero (v ∷ vals) sems h k = absurd (omega arith)
read_all-write_all (suc n) [] sems h k = absurd (omega arith)
read_all-write_all (suc n) (v ∷ vals) [] h k = absurd (omega arith)
read_all-write_all (suc n) (v ∷ vals) (s ∷ sems) h k =
    ap (λ l. v ∷ l) (read_all-write_all n vals sems (omega arith) (omega arith))

module _ (p : Process) (id : ℕ) (t : SemTable) (q : SemInfo) (shown : IsShown p id t q) where
  -- GETALL after SETALL returns the values that SETALL wrote, one for each semaphore of the set, if
  -- the copies succeed and the caller may read and write.
  pub getall-setall :
      (semnum semnum' : ℕ) (vals : List ℕ)
      → (int_negative semnum || ltb q.sem_nsems semnum) ≡ false
      → (int_negative semnum' || ltb q.sem_nsems semnum') ≡ false
      → ipc_have_permissions p q.sem_perm ipc_perm_write ≡ true
      → length vals ≡ q.sem_nsems
      → (t' : SemTable) × (semctl p id semnum (setall true (some vals)) t
          ≡ reply (value (number 0)) t')
        × (semctl p id semnum' (getall true true) t' ≡ reply (value (values vals)) t')
  unfolding semctl command
  getall-setall semnum semnum' vals inside inside' writable full =
      let t' = modify id (λ q. record q { sems = write_all q.sem_nsems vals q.sems }) t in
      let present' =
        sem_get_by_id-modify id (λ q. record q { sems = write_all q.sem_nsems vals q.sems }) t
          shown.present refl in
      (
        t',
        rw (shown.present, semctl, inside, writable),
        rw (present', semctl, inside', shown.readable)
            (ap (λ l. reply (value (values l)) t')
              (read_all-write_all q.sem_nsems vals q.sems full shown.sized)),
      )

  -- The number of semaphores passes the test on `semnum`, and GETVAL reads behind the last one.
  pub semctl_beyond : q.sem_nsems < 2 ^ 31 → semctl p id q.sem_nsems getval t ≡ out_of_bounds
  unfolding semctl command query
  semctl_beyond small =
      let positive : int_negative q.sem_nsems ≡ false = ground arith in
      rw (
        shown.present,
        semctl,
        positive,
        le→ltb q.sem_nsems q.sem_nsems (omega arith),
        shown.readable,
        get_elem?-length q.sems q.sem_nsems (omega (arith, shown.sized)),
      )

lookup_lem :
    (key : ℕ) (t : SemTable) (q : SemInfo)
    → key ≢ ipc_private
    → sem_get_by_key key t ≡ some q
    → lookup key t ≡ some q
unfolding lookup
lookup_lem key t q keyed present = ground (arith, keyed, present)

-- On a set that its key names, readable and not marked for deletion, and without IPC_CREAT or without IPC_EXCL, a call for
-- fewer semaphores than the set has fails with EINVAL, and one for more returns the set.
pub semget_nsems :
    (p : Process) (key nsems flags system_time : ℕ) (t : SemTable) (q : SemInfo)
    → key ≢ ipc_private
    → sem_get_by_key key t ≡ some q
    → q.del ≡ false
    → ipc_have_permissions p q.sem_perm ipc_perm_read ≡ true
    → (is_set (bit_and flags ipc_creat) && is_set (bit_and flags ipc_excl)) ≡ false
    → nsems ≢ 0
    → nsems < 2 ^ 31
    → semget p key nsems flags system_time true true t
      ≡ (if ltb nsems q.sem_nsems then fails einval else value q.id, t)
unfolding semget
semget_nsems p key nsems flags system_time t q keyed present kept readable shared some_asked small =
    let positive : int_negative nsems ≡ false = ground arith in
    let found = lookup_lem key t q keyed present in
    let asked = ne→== nsems 0 some_asked in
    elim (Bool-cases (ltb nsems q.sem_nsems)) [
      | inl fewer ↦ rw (found, semget, shared, readable, asked, positive, fewer)
      | inr more ↦ rw (found, semget, shared, readable, asked, positive, more, kept)
    ]
