-- ===== src/Kernel/Scheduler.antt =====
-- kernel/task/scheduler.c: how a task sleeps until a semaphore is raised, a signal interrupts it
-- or its timer runs out. `task->state` is a record with a field for each flag; the semaphore that
-- `task->waiting_on` points to is a field of the shared state, read and written through `Sem`.
-- What the other tasks do meanwhile is the schedule of Outcome.antt.
use posnk.Base.{
  ℕ, zero, suc, ◌+◌, ◌-◌, Bool, true, false, ◌&&◌, ◌||◌, not, ◌==◌, leb, if◌then◌else◌, List, [],
  ◌∷◌, Option, none, some,
}
use posnk.Kernel.Outcome.{Turn, Outcome, returned, asleep, panic, out_of_fuel, and_then}

-- A `semaphore_t` inside the shared state.
pub record Sem (S : Type 0) : Type 0 where
  pub value : S → ℕ
  pub put : ℕ → S → S

-- The scheduling fields of `scheduler_task_t`.
pub record Task : Type 0 where
  pub running : Bool
  pub ready : Bool
  pub stopped : Bool
  pub timedwait : Bool
  pub blocked : Bool
  pub interrupt : Bool
  pub interrupted : Bool
  pub timed_out : Bool
  pub debug_stop : Bool
  pub wait_timeout_u : ℕ

-- SCHED_WAIT_OK, SCHED_WAIT_INTR and SCHED_WAIT_TIMEOUT.
pub data WaitResult : Type 0 where
  wait_ok wait_intr wait_timeout : WaitResult

-- SCHED_WAITF_INTR and SCHED_WAITF_TIMEOUT.
pub record WaitFlags : Type 0 where
  pub intr : Bool
  pub timeout : Bool

-- `semaphore_try_down`: the result and the semaphore.
unfoldable pub semaphore_try_down : ℕ → Bool × ℕ
semaphore_try_down semaphore = if semaphore == 0 then (false, semaphore) else (true, semaphore - 1)

resume_blocked : Task → ℕ → Task × ℕ
unfolding semaphore_try_down
resume_blocked t s =
    if t.blocked
    then (let (down, s') = semaphore_try_down s in
        if down then (record t { ready = true; blocked = false }, s') else (t, s'))
    else (t, s)

resume_interrupt : Task → Task
resume_interrupt t =
    if t.interrupt then record t { ready = true; interrupted = true; interrupt = false } else t

resume_timer : ℕ → Task → Task
resume_timer now t =
    if t.timedwait
    then (if leb t.wait_timeout_u now
        then record t { ready = true; timed_out = true; timedwait = false }
        else t)
    else t

-- Looks whether a task can go on; the semaphore that it waits on is decremented if so.
unfoldable pub scheduler_handle_resume : ℕ → Task → ℕ → Task × ℕ
unfolding resume_blocked resume_interrupt resume_timer
scheduler_handle_resume now t s =
    if t.ready
    then (t, s)
    else let (t', s') = resume_blocked t s in (resume_timer now (resume_interrupt t'), s')

unfoldable pub scheduler_may_run : ℕ → Task → ℕ → Bool × Task × ℕ
unfolding scheduler_handle_resume
scheduler_may_run now t s =
    if t.running || t.stopped || t.debug_stop
    then (false, t, s)
    else let (t', s') = scheduler_handle_resume now t s in (t'.ready, t', s')

module _ {S : Type 0} (sem : Sem S) where
  -- One look at the sleeping task: the tasks before it have run.
  unfoldable pub take_turn : Turn S → Task → S → Bool × Task × S
  unfolding scheduler_may_run
  take_turn turn t s =
      let s' = turn.others s in
      let t' = record t { interrupt = t.interrupt || turn.signal } in
      let (runs, t'', v) = scheduler_may_run turn.now t' (sem.value s') in (runs, t'', sem.put v s')

  -- `schedule` as the sleeping task sees it: it comes back when a look finds that it may run.
  unfoldable pub schedule : List (Turn S) → Task → S → Outcome S Task
  unfolding take_turn
  schedule [] t s = asleep s
  schedule (turn ∷ ts) t s =
      let (runs, t', s') = take_turn turn t s in
      elim runs [ true ↦ returned (record t' { running = true }) s' ts | false ↦ schedule ts t' s' ]

  -- Why the task was resumed; no reason at all is a failed assertion.
  unfoldable pub resume_reason : (blocked : Bool) → Task → Option WaitResult
  resume_reason blocked result =
      if blocked && not result.blocked
      then some wait_ok
      else if result.interrupted
      then some wait_intr
      else if result.timed_out
      then some wait_timeout
      else none

  -- The flags of the argument `state` that matter are those of a wait on a semaphore or a timer.
  unfoldable pub block_on_internal :
      (blocked timedwait : Bool) → Task → S → List (Turn S) → Outcome S (WaitResult × Task)
  unfolding schedule resume_reason
  block_on_internal blocked timedwait t s ts =
      let t' = record t {
        ready = false;
        running = false;
        blocked = t.blocked || blocked;
        timedwait = t.timedwait || timedwait;
      } in
      and_then (schedule ts t' s) λ result s' ts'.
        let t'' = record result {
          blocked = result.blocked && not blocked;
          timedwait = result.timedwait && not timedwait;
          interrupted = false;
          timed_out = false;
        } in
        elim (resume_reason blocked result) [ none ↦ panic | some r ↦ returned (r, t'') s' ts' ]

  -- The loop of `scheduler_block_on`. Each round uses a turn, so one round more than there are
  -- turns is enough fuel.
  unfoldable pub block_on_loop :
      ℕ
      → (blocked timedwait : Bool) → WaitFlags
      → (intr : Bool) → Task
      → S
      → List (Turn S)
      → Outcome S (WaitResult × Task)
  unfolding block_on_internal
  block_on_loop zero blocked timedwait flags intr t s ts = out_of_fuel
  block_on_loop (suc k) blocked timedwait flags intr t s ts =
      and_then (block_on_internal blocked timedwait t s ts) λ (r, t') s' ts'.
        let reassert = λ (i : Bool). record t' { interrupt = t'.interrupt || i } in
        if flags.intr then returned (r, reassert intr) s' ts' else elim r [
          | wait_intr ↦ block_on_loop k blocked timedwait flags true t' s' ts'
          | other ↦ returned (other, reassert intr) s' ts'
        ]

  unfoldable pub scheduler_block_on :
      ℕ
      → (blocked timedwait : Bool) → WaitFlags
      → Task
      → S
      → List (Turn S)
      → Outcome S (WaitResult × Task)
  unfolding block_on_loop
  scheduler_block_on fuel blocked timedwait flags t s ts =
      block_on_loop fuel blocked timedwait flags false t s ts

  -- The wait on a semaphore, with the system time at the call.
  unfoldable pub scheduler_wait :
      ℕ
      → (system_time timeout : ℕ) → WaitFlags
      → Task
      → S
      → List (Turn S)
      → Outcome S (WaitResult × Task)
  unfolding scheduler_block_on
  scheduler_wait fuel system_time timeout flags t s ts =
      let timeout' = if flags.timeout then timeout + system_time else timeout in
      if timeout' == 0
      then scheduler_block_on fuel true false flags t s ts
      else scheduler_block_on fuel true true flags (record t { wait_timeout_u = timeout' }) s ts
