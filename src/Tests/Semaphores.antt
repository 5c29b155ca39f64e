-- ===== src/Tests/Semaphores.antt =====
-- Semaphore sets.
use posnk.Base.{ℕ, ◌≡◌, refl, true, false, some, List, [], ◌∷◌, arith}
use posnk.Kernel.Permissions.{Process, get_perm_class}
use posnk.Kernel.Outcome.{returned, panic}
use posnk.Svipc.Perm.{ipc_have_permissions}
use posnk.Svipc.Table.{value, find}
use posnk.Svipc.Sem.{SysvSem, SemInfo, SemTable, Sembuf, sem_get_by_id, sem_get_by_key}
use posnk.Svipc.Sem.Operate.{Operation, scan, checkblock_int, blocked, semop}
use posnk.Svipc.Sem.Single.{IsThere}
use posnk.Svipc.Sem.Effect.{Names, IsResult}
use posnk.Svipc.Sem.Calls.{semop_single, semop_overdraw}
use posnk.Svipc.Sem.Values.{IsShown}

abbrev owner : Process
owner = record { pid = 31; uid = 5; effective_uid = 5; gid = 6; effective_gid = 6 }

abbrev sem : ℕ → SysvSem
sem v = record { semval = v; sempid = 0; semncnt = 0; semzcnt = 0 }

abbrev pair : SemInfo
pair = record {
  key = 77;
  id = 2;
  del = false;
  refs = 0;
  nwaitsem = 0;
  zwaitsem = 0;
  sem_perm = record { uid = 5; gid = 6; cuid = 5; cgid = 6; mode = 0x180 };
  sem_nsems = 2;
  sem_otime = 0;
  sem_ctime = 0;
  sems = sem 4 ∷ sem 9 ∷ [];
}

abbrev table : SemTable
table = record { sem_list = pair ∷ []; sem_id_ctr = 3 }

-- -3, and -6 without waiting.
abbrev minus_three : Sembuf
minus_three = record { sem_num = 0; sem_op = 0xFFFD; sem_flg = 0 }

abbrev minus_six : Sembuf
minus_six = record { sem_num = 0; sem_op = 0xFFFA; sem_flg = 0x800 }

abbrev outside : Sembuf
outside = record { sem_num = 2; sem_op = 1; sem_flg = 0 }

abbrev operation : List Sembuf → Operation
operation ops = record { caller = owner; system_time = 50; semid = 2; sops = ops }

pair-IsThere : (ops : List Sembuf) → IsThere (operation ops) table pair
unfolding sem_get_by_id find
pair-IsThere ops = record { present = refl; kept = refl; referenced = omega arith }

first-Names : Names minus_three pair (sem 4)
first-Names = record { inside = refl; found = refl }

three_free : checkblock_int pair minus_three ≡ some false
unfolding checkblock_int
three_free = refl

semop_single_example :
    (t' : SemTable) × (q' : SemInfo) × (semop (operation (minus_three ∷ [])) 1 table []
      ≡ returned (value tt) t' [])
    × (sem_get_by_id 2 t' ≡ some q')
    × IsResult minus_three pair (sem 4) q'
semop_single_example =
    semop_single (operation (minus_three ∷ [])) table pair (pair-IsThere (minus_three ∷ []))
      minus_three (sem 4) 0 [] first-Names refl (omega arith) (omega arith) three_free

six_waits : scan pair 0 (minus_six ∷ []) ≡ blocked 0 minus_six
unfolding scan checkblock_int
six_waits = refl

semop_overdraw_example : semop (operation (minus_three ∷ minus_three ∷ [])) 1 table [] ≡ panic
semop_overdraw_example =
    semop_overdraw (operation (minus_three ∷ minus_three ∷ [])) table pair
      (pair-IsThere (minus_three ∷ minus_three ∷ [])) minus_three minus_three (sem 4) 0 []
      first-Names refl refl refl refl (omega arith) (omega arith) (omega arith) (omega arith)
      (omega arith) (omega arith)

pair-IsShown : IsShown owner 2 table pair
unfolding sem_get_by_id find ipc_have_permissions get_perm_class
pair-IsShown = record { present = refl; readable = refl; sized = refl }

owner_may_write : ipc_have_permissions owner pair.sem_perm 2 ≡ true
unfolding ipc_have_permissions get_perm_class
owner_may_write = refl

pair_by_key : sem_get_by_key 77 table ≡ some pair
unfolding sem_get_by_key find
pair_by_key = refl
