-- ===== src/Svipc/Sem.antt =====
-- kernel/svipc/sem.c: System V semaphore sets. A `short` is its 16-bit pattern and an `int` its
-- 32-bit pattern.
pub mod Operate
pub mod Control
pub mod Single
pub mod Effect
pub mod Calls
pub mod Values
use posnk.Base.{
  ℕ, ◌-◌, ◌^◌, Bool, ◌&&◌, ◌==◌, leb, if◌then◌else◌, Option, none, some, List, [], add32, sub32,
}
use posnk.Kernel.Outcome.{Outcome, panic}
use posnk.Kernel.Scheduler.{Sem}
use posnk.Svipc.Perm.{IpcPerm}
use posnk.Svipc.Table.{find, update, remove}

-- `sysv_sem_t`.
pub record SysvSem : Type 0 where
  pub semval : ℕ
  pub sempid : ℕ
  pub semncnt : ℕ
  pub semzcnt : ℕ

-- `sem_info_t` with the fields of its `struct semid_ds`.
pub record SemInfo : Type 0 where
  pub key : ℕ
  pub id : ℕ
  pub del : Bool
  pub refs : ℕ
  pub nwaitsem : ℕ
  pub zwaitsem : ℕ
  pub sem_perm : IpcPerm
  pub sem_nsems : ℕ
  pub sem_otime : ℕ
  pub sem_ctime : ℕ
  pub sems : List SysvSem

-- `sem_list` and `sem_id_ctr`.
pub record SemTable : Type 0 where
  pub sem_list : List SemInfo
  pub sem_id_ctr : ℕ

abbrev pub sem_init : SemTable
sem_init = record { sem_list = []; sem_id_ctr = 0 }

-- `struct sembuf`.
pub record Sembuf : Type 0 where
  pub sem_num : ℕ
  pub sem_op : ℕ
  pub sem_flg : ℕ

-- The sign of a `short`, and of an `int`; the absolute value of a negative `short`.
abbrev pub short_negative : ℕ → Bool
short_negative a = leb (2 ^ 15) a

abbrev pub int_negative : ℕ → Bool
int_negative a = leb (2 ^ 31) a

abbrev pub short_neg : ℕ → ℕ
short_neg a = 2 ^ 16 - a

abbrev pub sem_id_search_iterator : ℕ → SemInfo → Bool
sem_id_search_iterator id q = q.id == id

abbrev pub sem_key_search_iterator : ℕ → SemInfo → Bool
sem_key_search_iterator key q = q.key == key

unfoldable pub sem_get_by_id : ℕ → SemTable → Option SemInfo
sem_get_by_id id t = find (sem_id_search_iterator id) t.sem_list

unfoldable pub sem_get_by_key : ℕ → SemTable → Option SemInfo
sem_get_by_key key t = find (sem_key_search_iterator key) t.sem_list

-- A write through the pointer to the set with this id.
unfoldable pub modify : ℕ → (SemInfo → SemInfo) → SemTable → SemTable
modify id f t = record t { sem_list = update (sem_id_search_iterator id) f t.sem_list }

unfoldable pub sem_do_delete : ℕ → SemTable → SemTable
sem_do_delete id t = record t { sem_list = remove (sem_id_search_iterator id) t.sem_list }

-- What is read through the pointer; a pointer to a set that has been deleted is a fault.
abbrev pub with_info :
    {R : Type 0} → ℕ → SemTable → (SemInfo → Outcome SemTable R) → Outcome SemTable R
with_info id t k = elim (sem_get_by_id id t) [ none ↦ panic | some q ↦ k q ]

abbrev pub add_ref : SemInfo → SemInfo
add_ref q = record q { refs = add32 q.refs 1 }

abbrev pub drop_ref : SemInfo → SemInfo
drop_ref q = record q { refs = sub32 q.refs 1 }

-- The end of a wait: the reference is dropped, and with the last one a set marked for deletion
-- goes.
unfoldable pub sem_release : ℕ → SemTable → SemTable
unfolding modify sem_do_delete
sem_release id t =
    let t' = modify id drop_ref t in
    elim (sem_get_by_id id t') [
      | none ↦ t'
      | some q ↦ if q.del && q.refs == 0 then sem_do_delete id t' else t'
    ]

abbrev pub nwait_sem : ℕ → Sem SemTable
nwait_sem id = record {
  value = λ t. elim (sem_get_by_id id t) [ none ↦ 0 | some q ↦ q.nwaitsem ];
  put = λ v t. modify id (λ q. record q { nwaitsem = v }) t;
}

abbrev pub zwait_sem : ℕ → Sem SemTable
zwait_sem id = record {
  value = λ t. elim (sem_get_by_id id t) [ none ↦ 0 | some q ↦ q.zwaitsem ];
  put = λ v t. modify id (λ q. record q { zwaitsem = v }) t;
}
