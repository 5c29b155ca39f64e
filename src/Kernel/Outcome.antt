-- ===== src/Kernel/Outcome.antt =====
-- How a kernel function that may block ends: the common frame of scheduler.c, synch.c, pipe.c and
-- svipc. The schedule is a list of turns; a turn is one moment at which the scheduler looks
-- whether the sleeping task may run.
use posnk.Base.{ℕ, Bool, List, [], ◌∷◌}

-- Before a turn the other tasks have changed the shared state, a signal may have interrupted the
-- sleeping task, and `now` is the time in microseconds.
pub record Turn (S : Type 0) : Type 0 where
  pub others : S → S
  pub signal : Bool
  pub now : ℕ

-- `asleep`: the schedule ended while the task slept. `panic`: a failed assertion halts the kernel.
pub data Outcome (S R : Type 0) : Type 0 where
  returned : R → S → List (Turn S) → Outcome S R
  asleep : S → Outcome S R
  panic : Outcome S R
  out_of_fuel : Outcome S R

module _ {S A B : Type 0} where
  abbrev pub and_then : Outcome S A → (A → S → List (Turn S) → Outcome S B) → Outcome S B
  and_then (returned a s ts) k = k a s ts
  and_then (asleep s) k = asleep s
  and_then panic k = panic
  and_then out_of_fuel k = out_of_fuel

-- The task either returns with `P` or still sleeps in a state with `Q`: no failed assertion, and
-- enough fuel.
pub data Ends {S R : Type 0} (P : R → S → List (Turn S) → Type 0) (Q : S → Type 0)
    : Outcome S R → Type 0 where
  ends : {r : R} {s : S} {ts : List (Turn S)} → P r s ts → Ends P Q (returned r s ts)
  sleeps : {s : S} → Q s → Ends P Q (asleep s)

module _ {S A B : Type 0} {P : A → S → List (Turn S) → Type 0} {Q : S → Type 0} where
  pub Ends-and_then :
      {P' : B → S → List (Turn S) → Type 0} {o : Outcome S A}
      {k : A → S → List (Turn S) → Outcome S B}
      → Ends P Q o
      → ((a : A) (s : S) (ts : List (Turn S)) → P a s ts → Ends P' Q (k a s ts))
      → Ends P' Q (and_then o k)
  Ends-and_then (ends p) next = next _ _ _ p
  Ends-and_then (sleeps q) next = sleeps q

module _ {S A : Type 0} {P P' : A → S → List (Turn S) → Type 0} {Q : S → Type 0} where
  pub Ends-mono :
      {o : Outcome S A}
      → Ends P Q o
      → ((a : A) (s : S) (ts : List (Turn S)) → P a s ts → P' a s ts)
      → Ends P' Q o
  Ends-mono (ends p) weaken = ends (weaken _ _ _ p)
  Ends-mono (sleeps q) weaken = sleeps q

module _ {S A : Type 0} {P P' : A → S → List (Turn S) → Type 0} {Q Q' : S → Type 0} where
  pub Ends-both :
      {o : Outcome S A}
      → Ends P Q o
      → Ends P' Q' o
      → Ends (λ a s ts. P a s ts × P' a s ts) (λ s. Q s × Q' s) o
  Ends-both (ends p) (ends p') = ends (p, p')
  Ends-both (sleeps q) (sleeps q') = sleeps (q, q')

  pub Ends-weaken :
      {o : Outcome S A}
      → Ends P Q o
      → ((a : A) (s : S) (ts : List (Turn S)) → P a s ts → P' a s ts)
      → ((s : S) → Q s → Q' s)
      → Ends P' Q' o
  Ends-weaken (ends p) f g = ends (f _ _ _ p)
  Ends-weaken (sleeps q) f g = sleeps (g _ q)

-- Whatever the other tasks do at these turns, they keep `I`.
abbrev pub Keep : {S : Type 0} → (S → Type 0) → List (Turn S) → Type 0
Keep I [] = Unit
Keep {S} I (turn ∷ ts) = ((s : S) → I s → I (turn.others s)) × Keep I ts
