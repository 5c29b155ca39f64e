-- ===== src/Tests/Kernel.antt =====
-- Permissions and waits.
use posnk.Base.{ℕ, ◌+◌, ◌≡◌, refl, true, false, ◌||◌, ◌&&◌, leb, List, [], ◌∷◌, arith, ◌/◌, ◌^◌}
use posnk.Kernel.Permissions.{Process, get_perm_class, perm_class_owner, perm_class_group}
use posnk.Svipc.Perm.{IpcPerm, ipc_have_permissions}
use posnk.Svipc.Perm.Laws.{grants, ipc_have_permissions_lem}
use posnk.Kernel.Vfs.Perm.{Inode}
use posnk.Kernel.Outcome.{Turn}
use posnk.Kernel.Scheduler.{Sem}
use posnk.Kernel.Synch.{interruptible_down, semaphore_down, running_task}
use posnk.Kernel.Synch.Wait.{take_or_wait, interruptible_down_lem}
use posnk.Kernel.Synch.Uninterrupted.{result_of, take_or_wait_until_raised, semaphore_down_lem}

-- A process of user 7 whose effective user is 5.
abbrev visitor : Process
visitor = record { pid = 12; uid = 7; effective_uid = 5; gid = 3; effective_gid = 4 }

abbrev shared : IpcPerm
shared = record { uid = 9; gid = 4; cuid = 9; cgid = 4; mode = 0x1A0 }

ipc_have_permissions_lem_example : ipc_have_permissions visitor shared 4 ≡ (
    grants shared.mode 4
    || (leb (get_perm_class visitor 9 4) perm_class_group && grants (shared.mode / 2 ^ 3) 4)
    || (leb (get_perm_class visitor 9 4) perm_class_owner && grants (shared.mode / 2 ^ 6) 4))
ipc_have_permissions_lem_example = ipc_have_permissions_lem visitor shared 4

abbrev file : Inode
file = record { uid = shared.uid; gid = shared.gid; mode = shared.mode }

group_may_read : ipc_have_permissions visitor shared 4 ≡ true
unfolding ipc_have_permissions get_perm_class
group_may_read = refl

-- The state is the semaphore itself.
abbrev plain : Sem ℕ
plain = record { value = λ s. s; put = λ v s. v }

-- A signal that comes while the semaphore is 0, then a task that raises it to 2.
abbrev arrivals : List (Turn ℕ)
arrivals =
    record { others = λ s. s; signal = true; now = 10 }
    ∷ record { others = λ s. s + 2; signal = false; now = 20 }
    ∷ []

interruptible_down_lem_example : interruptible_down plain 0 arrivals ≡ take_or_wait plain 0 arrivals
interruptible_down_lem_example = interruptible_down_lem plain (λ s. refl) 0 arrivals

semaphore_down_lem_example :
    result_of plain (semaphore_down plain 3 0 running_task 0 arrivals)
    ≡ take_or_wait_until_raised plain 0 arrivals
semaphore_down_lem_example = semaphore_down_lem plain (λ s. refl) 3 0 0 arrivals (omega arith)
