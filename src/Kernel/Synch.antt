-- ===== src/Kernel/Synch.antt =====
-- kernel/task/synch.c: counting semaphores. A `semaphore_t` is a 32-bit unsigned integer; the
-- interrupt flag that `disable` and `restore` keep is not modelled, since each of these functions
-- is one step.
pub mod Wait
pub mod Uninterrupted
pub mod Waits
use posnk.Base.{ℕ, zero, suc, ◌+◌, ◌-◌, ◌%◌, ◌^◌, Bool, true, false, if◌then◌else◌, List, [], ◌∷◌}
use posnk.Kernel.Outcome.{Turn, Outcome, returned, and_then}
use posnk.Kernel.Scheduler.{
  Sem, Task, WaitResult, wait_ok, WaitFlags, semaphore_try_down, scheduler_wait,
}

unfoldable pub semaphore_up : ℕ → ℕ
semaphore_up semaphore = (semaphore + 1) % 2 ^ 32

unfoldable pub semaphore_add : ℕ → ℕ → ℕ
semaphore_add semaphore n = (semaphore + n) % 2 ^ 32

abbrev pub semaphore_init : ℕ
semaphore_init = 0

module _ {S : Type 0} (sem : Sem S) where
  unfoldable pub semaphore_ndown :
      ℕ
      → (system_time timeout : ℕ) → WaitFlags
      → Task
      → S
      → List (Turn S)
      → Outcome S (WaitResult × Task)
  unfolding semaphore_try_down
  semaphore_ndown fuel system_time timeout flags t s ts =
      let (down, v) = semaphore_try_down (sem.value s) in
      if down
      then returned (wait_ok, t) (sem.put v s) ts
      else scheduler_wait sem fuel system_time timeout flags t s ts

  unfoldable pub semaphore_down :
      ℕ → (system_time : ℕ) → Task → S → List (Turn S) → Outcome S (WaitResult × Task)
  unfolding semaphore_ndown
  semaphore_down fuel system_time t s ts =
      semaphore_ndown fuel system_time 0 (record { intr = false; timeout = false }) t s ts

-- The flags of a task that runs in the kernel: a wait leaves them as it found them.
abbrev pub running_task : Task
running_task = record {
  running = true;
  ready = true;
  stopped = false;
  timedwait = false;
  blocked = false;
  interrupt = false;
  interrupted = false;
  timed_out = false;
  debug_stop = false;
  wait_timeout_u = 0;
}

-- `semaphore_ndown(semaphore, 0, SCHED_WAITF_INTR)`, the call that pipes and System V objects make.
-- An interruptible wait goes round the loop of `scheduler_block_on` once.
unfoldable pub interruptible_down : {S : Type 0} → Sem S → S → List (Turn S) → Outcome S WaitResult
unfolding semaphore_ndown
interruptible_down sem s ts =
    and_then (semaphore_ndown sem 1 0 0 (record { intr = true; timeout = false }) running_task s ts)
      λ (r, _) s' ts'. returned r s' ts'
