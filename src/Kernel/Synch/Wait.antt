-- ===== src/Kernel/Synch/Wait.antt =====
-- An interruptible wait on a semaphore, described without task flags.
use posnk.Base.{
  ℕ, ◌+◌, ◌*◌, ◌^◌, ◌<◌, ◌-◌, ◌≡◌, refl, if◌then◌else◌, ◌==◌, List, [], ◌∷◌, arith, true, false,
  tests, ==→eq, ==→ne, Bool-cases, inl, inr, length,
}
use posnk.Kernel.Outcome.{
  Turn, Outcome, returned, asleep, and_then, Keep, Ends, ends, sleeps, Ends-mono,
}
use posnk.Kernel.Scheduler.{Sem, WaitResult, wait_ok, wait_intr, scheduler_wait}
use posnk.Kernel.Synch.{interruptible_down, running_task}

module _ {S : Type 0} (sem : Sem S) where
  -- At each turn the semaphore is taken if the other tasks have raised it; else a signal ends the
  -- wait.
  abbrev pub wait_for : S → List (Turn S) → Outcome S WaitResult
  wait_for s [] = asleep s
  wait_for s (turn ∷ ts) =
      let s' = turn.others s in
      let rest = wait_for s' ts in
      if sem.value s' == 0
      then (if turn.signal then returned wait_intr s' ts else rest)
      else returned wait_ok (sem.put (sem.value s' - 1) s') ts

  abbrev pub take_or_wait : S → List (Turn S) → Outcome S WaitResult
  take_or_wait s ts =
      if sem.value s == 0 then wait_for s ts else returned wait_ok (sem.put (sem.value s - 1) s) ts

  abbrev sleep : S → List (Turn S) → Outcome S WaitResult
  sleep s ts =
      and_then
        (scheduler_wait sem 1 0 0 (record { intr = true; timeout = false }) running_task s ts)
        λ (r, _) s' ts'. returned r s' ts'

  sleep_lem :
      ((s : S) → sem.put (sem.value s) s ≡ s)
      → (s : S) (ts : List (Turn S)) → sleep s ts ≡ wait_for s ts
  unfolding scheduler_wait
  sleep_lem put_self s [] = refl
  sleep_lem put_self s (turn ∷ ts) =
      ground (arith, put_self (turn.others s), sleep_lem put_self (turn.others s) ts)

  -- A semaphore that can be taken is taken at once. Otherwise the caller sleeps until a turn finds
  -- the semaphore raised, and takes it then, or until a turn with a signal that does not.
  pub interruptible_down_lem :
      ((s : S) → sem.put (sem.value s) s ≡ s)
      → (s : S) (ts : List (Turn S)) → interruptible_down sem s ts ≡ take_or_wait s ts
  unfolding interruptible_down
  interruptible_down_lem put_self s ts = ground (arith, sleep_lem put_self s ts)

-- How often a loop can go round on a 32-bit semaphore and the turns that are left.
abbrev pub patience : {S : Type 0} → Sem S → S → List (Turn S) → ℕ
patience sem s ts = sem.value s + length ts * 2 ^ 32

-- What the wait needs of a property of the state that the other tasks keep.
pub record IsWaitable {S : Type 0} (sem : Sem S) (I : S → Type 0) : Type 0 where
  pub put_self : (s : S) → sem.put (sem.value s) s ≡ s
  pub value-put : (v : ℕ) (s : S) → I s → sem.value (sem.put v s) ≡ v
  pub bounded : (s : S) → I s → sem.value s < 2 ^ 32
  pub taken : (s : S) → I s → I (sem.put (sem.value s - 1) s)

module _ {S : Type 0} (sem : Sem S) {I : S → Type 0} (w : IsWaitable sem I) where
  -- After the wait the property holds, the other tasks go on keeping it, and the patience is less.
  abbrev pub Woken : ℕ → WaitResult → S → List (Turn S) → Type 0
  Woken m r s ts = I s × Keep I ts × (patience sem s ts < m)

  wait_for-Ends :
      (s : S) (ts : List (Turn S))
      → Keep I ts
      → I s
      → Ends (Woken (length ts * 2 ^ 32)) I (wait_for sem s ts)
  wait_for-Ends s [] keep i = sleeps i
  wait_for-Ends s (turn ∷ ts) (keep, later) i =
      let i' = keep s i in
      let small = w.bounded (turn.others s) i' in
      elim (Bool-cases (sem.value (turn.others s) == 0)) [
        | inl e ↦ elim (Bool-cases turn.signal) [
          | inl came ↦
              let zero' = ==→eq (sem.value (turn.others s)) 0 e in
              rw (e, came) (ends (i', later, omega arith))
          | inr none ↦
              rw (e, none)
                (Ends-mono (wait_for-Ends (turn.others s) ts later i')
                  λ r s' ts' (a, b, lt). (a, b, omega arith))
        ]
        | inr e ↦ rw e (
            ends (
              w.taken (turn.others s) i',
              later,
              omega (tests, w.value-put (sem.value (turn.others s) - 1) (turn.others s) i'),
            ))
      ]

  pub interruptible_down-Ends :
      (s : S) (ts : List (Turn S))
      → Keep I ts
      → I s
      → Ends (Woken (patience sem s ts)) I (interruptible_down sem s ts)
  interruptible_down-Ends s ts keep i =
      rw (interruptible_down_lem sem w.put_self s ts) (elim (Bool-cases (sem.value s == 0)) [
        | inl e ↦
            rw e (Ends-mono (wait_for-Ends s ts keep i) λ r s' ts' (a, b, lt). (a, b, omega arith))
        | inr e ↦ rw e (
            ends (
              w.taken s i,
              keep,
              omega (tests, ==→ne (sem.value s) 0 e, w.value-put (sem.value s - 1) s i),
            ))
      ])
