-- ===== src/Kernel/Synch/Waits.antt =====
-- What a task that waits on a semaphore does to the shared state: it takes the semaphore, and nothing else.
use posnk.Base.{
  ◌-◌, ◌≡◌, ◌≢◌, refl, sym, ◌==◌, List, [], ◌∷◌, true, false, ==→eq, ==→ne, Bool-cases, inl, inr,
}
use mathlib.Core.Path.{subst}
use posnk.Kernel.Outcome.{Turn, returned, Ends, ends, sleeps, Ends-weaken}
use posnk.Kernel.Scheduler.{Sem, WaitResult, wait_ok, wait_intr, wait_timeout}
use posnk.Kernel.Synch.{interruptible_down}
use posnk.Kernel.Synch.Wait.{wait_for, interruptible_down_lem}

-- The state and the turns that are left after some turns of the other tasks, and after the semaphore has
-- been taken some times where it was not 0.
pub data Waits {S : Type 0} (sem : Sem S) : S → List (Turn S) → S → List (Turn S) → Type 0 where
  here : {s : S} {ts : List (Turn S)} → Waits sem s ts s ts
  slept :
      {s s' : S} {turn : Turn S} {ts ts' : List (Turn S)}
      → Waits sem (turn.others s) ts s' ts'
      → Waits sem s (turn ∷ ts) s' ts'
  took :
      {s s' : S} {ts ts' : List (Turn S)}
      → sem.value s ≢ 0
      → Waits sem (sem.put (sem.value s - 1) s) ts s' ts'
      → Waits sem s ts s' ts'

module _ {S : Type 0} (sem : Sem S) where
  pub Waits-trans :
      {s s' s'' : S} {ts ts' ts'' : List (Turn S)}
      → Waits sem s ts s' ts'
      → Waits sem s' ts' s'' ts''
      → Waits sem s ts s'' ts''
  Waits-trans here w = w
  Waits-trans (slept v) w = slept (Waits-trans v w)
  Waits-trans (took ne v) w = took ne (Waits-trans v w)

  -- The wait came to a turn with a signal, after which the semaphore was 0.
  pub record IsSignalled (s : S) (ts : List (Turn S)) (s' : S) (ts' : List (Turn S)) : Type 0 where
    pub before : S
    pub turn : Turn S
    pub waits : Waits sem s ts before (turn ∷ ts')
    pub after : s' ≡ turn.others before
    pub signal : turn.signal ≡ true
    pub low : sem.value s' ≡ 0

  -- How a wait comes to its result.
  abbrev pub Reason : S → List (Turn S) → WaitResult → S → List (Turn S) → Type 0
  Reason s ts wait_ok s' ts' = Unit
  Reason s ts wait_intr s' ts' = IsSignalled s ts s' ts'
  Reason s ts wait_timeout s' ts' = ⊥

  abbrev pub Waited : S → List (Turn S) → WaitResult → S → List (Turn S) → Type 0
  Waited s ts r s' ts' = Waits sem s ts s' ts' × Reason s ts r s' ts'

  Waited-slept :
      (r : WaitResult) {s s' : S} {turn : Turn S} {ts ts' : List (Turn S)}
      → Waited (turn.others s) ts r s' ts'
      → Waited s (turn ∷ ts) r s' ts'
  Waited-slept wait_ok (w, why) = (slept w, why)
  Waited-slept wait_intr (w, why) = (
    slept w,
    record {
      before = why.before;
      turn = why.turn;
      waits = slept why.waits;
      after = why.after;
      signal = why.signal;
      low = why.low;
    },
  )
  Waited-slept wait_timeout (w, why) = absurd why

  wait_for-signal :
      (s : S) (turn : Turn S) (ts : List (Turn S))
      → (sem.value (turn.others s) == 0) ≡ true
      → turn.signal ≡ true
      → wait_for sem s (turn ∷ ts) ≡ returned wait_intr (turn.others s) ts
  wait_for-signal s turn ts e c = rw (e, c) refl

  wait_for-quiet :
      (s : S) (turn : Turn S) (ts : List (Turn S))
      → (sem.value (turn.others s) == 0) ≡ true
      → turn.signal ≡ false
      → wait_for sem s (turn ∷ ts) ≡ wait_for sem (turn.others s) ts
  wait_for-quiet s turn ts e c = rw (e, c) refl

  wait_for-Waits :
      (s : S) (ts : List (Turn S))
      → Ends (Waited s ts) (λ s'. Waits sem s ts s' []) (wait_for sem s ts)
  wait_for-Waits s [] = sleeps here
  wait_for-Waits s (turn ∷ ts) = elim (Bool-cases (sem.value (turn.others s) == 0)) [
    | inr e ↦ rw e (ends (slept (took (==→ne _ 0 e) here), tt))
    | inl e ↦
        let P = Ends (Waited s (turn ∷ ts)) (λ s'. Waits sem s (turn ∷ ts) s' []) in
        elim (Bool-cases turn.signal) [
          | inl c ↦ subst P (sym (wait_for-signal s turn ts e c)) (
              ends (
                slept here,
                record {
                  before = s;
                  turn = turn;
                  waits = here;
                  after = refl;
                  signal = c;
                  low = ==→eq _ 0 e;
                },
              ))
          | inr c ↦ subst P (sym (wait_for-quiet s turn ts e c)) (
              Ends-weaken (wait_for-Waits (turn.others s) ts) (λ r s' ts' w. Waited-slept r w)
                (λ s' w. slept w))
        ]
  ]

  -- A wait ends after turns of the other tasks and with the semaphore taken at most, and by a signal only
  -- at a turn with one.
  pub interruptible_down-Waits :
      ((s : S) → sem.put (sem.value s) s ≡ s)
      → (s : S) (ts : List (Turn S))
      → Ends (Waited s ts) (λ s'. Waits sem s ts s' []) (interruptible_down sem s ts)
  interruptible_down-Waits put_self s ts =
      rw (interruptible_down_lem sem put_self s ts) (elim (Bool-cases (sem.value s == 0)) [
        | inl e ↦ rw e (wait_for-Waits s ts)
        | inr e ↦ rw e (ends (took (==→ne _ 0 e) here, tt))
      ])
