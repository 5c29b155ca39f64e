-- ===== src/Kernel/Synch/Uninterrupted.antt =====
-- A wait that no signal ends: semaphore_down, described without task flags.
use posnk.Base.{
  ℕ, zero, suc, ◌-◌, ◌<◌, ◌≡◌, refl, inl, inr, Bool, true, false, if◌then◌else◌, List, [], ◌∷◌,
  length, arith, ◌==◌, ◌∙◌, Bool-cases,
}
use posnk.Kernel.Outcome.{Turn, Outcome, returned, asleep, and_then}
use posnk.Kernel.Scheduler.{Sem, Task, WaitResult, wait_ok, block_on_loop, scheduler_wait}
use posnk.Kernel.Synch.{semaphore_down, running_task}

module _ {S : Type 0} (sem : Sem S) where
  -- At each turn the semaphore is taken if the other tasks have raised it; signals do not matter.
  abbrev pub wait_until_raised : S → List (Turn S) → Outcome S WaitResult
  wait_until_raised s [] = asleep s
  wait_until_raised s (turn ∷ ts) =
      let s' = turn.others s in
      let rest = wait_until_raised s' ts in
      if sem.value s' == 0 then rest else returned wait_ok (sem.put (sem.value s' - 1) s') ts

  abbrev pub take_or_wait_until_raised : S → List (Turn S) → Outcome S WaitResult
  take_or_wait_until_raised s ts =
      if sem.value s == 0
      then wait_until_raised s ts
      else returned wait_ok (sem.put (sem.value s - 1) s) ts

  -- A wait without the task that it gives back.
  abbrev pub result_of : Outcome S (WaitResult × Task) → Outcome S WaitResult
  result_of o = and_then o λ (r, _) s' ts'. returned r s' ts'

  abbrev waiting_task : Task
  waiting_task = record running_task { running = false; ready = false; blocked = true }

  abbrev down_loop : ℕ → Bool → S → List (Turn S) → Outcome S (WaitResult × Task)
  down_loop k intr s ts =
      block_on_loop sem k true false (record { intr = false; timeout = false }) intr running_task s
        ts

  module _ (put_self : (s : S) → sem.put (sem.value s) s ≡ s) where
    -- One turn of the sleep: the semaphore is taken, nothing happens, or a signal starts it anew.
    down_loop-raised :
        (k : ℕ) (intr : Bool) (s : S) (turn : Turn S) (ts : List (Turn S))
        → (sem.value (turn.others s) == 0) ≡ false
        → let s' = turn.others s in
          result_of (down_loop (suc k) intr s (turn ∷ ts))
          ≡ returned wait_ok (sem.put (sem.value s' - 1) s') ts
    unfolding block_on_loop
    down_loop-raised k intr s turn ts e = ground (arith, e)

    down_loop-quiet :
        (k : ℕ) (intr : Bool) (s : S) (turn : Turn S) (ts : List (Turn S))
        → (sem.value (turn.others s) == 0) ≡ true
        → turn.signal ≡ false
        → result_of (down_loop (suc k) intr s (turn ∷ ts))
          ≡ result_of (down_loop (suc k) intr (turn.others s) ts)
    unfolding block_on_loop
    down_loop-quiet k intr s turn ts e c = ground (arith, e, c, put_self (turn.others s))

    down_loop-signal :
        (k : ℕ) (intr : Bool) (s : S) (turn : Turn S) (ts : List (Turn S))
        → (sem.value (turn.others s) == 0) ≡ true
        → turn.signal ≡ true
        → result_of (down_loop (suc k) intr s (turn ∷ ts))
          ≡ result_of (down_loop k true (turn.others s) ts)
    unfolding block_on_loop
    down_loop-signal k intr s turn ts e c = ground (arith, e, c, put_self (turn.others s))

    down_loop-asleep :
        (k : ℕ) (intr : Bool) (s : S) → result_of (down_loop (suc k) intr s []) ≡ asleep s
    unfolding block_on_loop
    down_loop-asleep k intr s = refl

    down_loop_lem :
        (k : ℕ) (intr : Bool) (s : S) (ts : List (Turn S))
        → length ts < k
        → result_of (down_loop k intr s ts) ≡ wait_until_raised s ts
    down_loop_lem zero intr s ts lt = absurd (omega arith)
    down_loop_lem (suc k) intr s [] lt = down_loop-asleep k intr s
    down_loop_lem (suc k) intr s (turn ∷ ts) lt =
        elim (Bool-cases (sem.value (turn.others s) == 0)) [
          | inr e ↦ rw e (down_loop-raised k intr s turn ts e)
          | inl e ↦ rw e (elim (Bool-cases turn.signal) [
            | inr c ↦
                down_loop-quiet k intr s turn ts e c
                ∙ down_loop_lem (suc k) intr (turn.others s) ts (omega arith)
            | inl c ↦
                down_loop-signal k intr s turn ts e c
                ∙ down_loop_lem k true (turn.others s) ts (omega arith)
          ])
        ]

    -- With more fuel than turns, semaphore_down takes a raised semaphore at once. Otherwise the caller
    -- sleeps until a turn finds the semaphore raised, and takes it then, one off its value; no signal
    -- ends the wait, and nothing else changes the state but the other tasks.
    pub semaphore_down_lem :
        (fuel system_time : ℕ) (s : S) (ts : List (Turn S))
        → length ts < fuel
        → result_of (semaphore_down sem fuel system_time running_task s ts)
          ≡ take_or_wait_until_raised s ts
    unfolding semaphore_down scheduler_wait
    semaphore_down_lem fuel system_time s ts lt = elim (Bool-cases (sem.value s == 0)) [
      | inl e ↦ rw e (down_loop_lem fuel false s ts lt)
      | inr e ↦ rw e refl
    ]
