-- ===== src/Kernel/Loop.antt =====
-- Loops whose rounds may block: `for (;;)` and `while` in pipe.c, sem.c and msg.c.
use posnk.Base.{ℕ, zero, suc, ◌<◌, ◌⊎◌, inl, inr, List, arith}
use posnk.Kernel.Outcome.{Turn, Outcome, returned, out_of_fuel, and_then, Ends, ends, Ends-and_then}

-- A round ends with new values of the local variables, or with the result of the loop.
abbrev pub Round : (S L R : Type 0) → Type 0
Round S L R = L → S → List (Turn S) → Outcome S (L ⊎ R)

module _ {S L R : Type 0} where
  unfoldable pub loop : Round S L R → ℕ → L → S → List (Turn S) → Outcome S R
  loop round zero l s ts = out_of_fuel
  loop round (suc k) l s ts =
      and_then (round l s ts)
        λ x s' ts'. elim x [ inl l' ↦ loop round k l' s' ts' | inr r ↦ returned r s' ts' ]

  -- What a round must establish: `inv` and a smaller measure if the loop goes on, `P` if it ends.
  abbrev pub Continues :
      (L → S → List (Turn S) → Type 0)
      → (L → S → List (Turn S) → ℕ)
      → (R → S → List (Turn S) → Type 0)
      → ℕ
      → L ⊎ R
      → S
      → List (Turn S)
      → Type 0
  Continues inv measure P m (inl l) s ts = inv l s ts × (measure l s ts < m)
  Continues inv measure P m (inr r) s ts = P r s ts

  -- A measure below the fuel falls in every round that goes on: the loop ends or sleeps, and what
  -- the last round establishes holds.
  pub loop_inv :
      (inv : L → S → List (Turn S) → Type 0) (measure : L → S → List (Turn S) → ℕ)
      {P : R → S → List (Turn S) → Type 0} {Q : S → Type 0} (round : Round S L R)
      → ((l : L) (s : S) (ts : List (Turn S))
          → inv l s ts
          → Ends (Continues inv measure P (measure l s ts)) Q (round l s ts))
      → (k : ℕ) (l : L) (s : S) (ts : List (Turn S)) → inv l s ts
      → measure l s ts < k
      → Ends P Q (loop round k l s ts)
  unfolding loop
  loop_inv inv measure round step zero l s ts i lt = absurd (omega arith)
  loop_inv inv measure {P} {Q} round step (suc k) l s ts i lt =
      Ends-and_then (step l s ts i) λ x s' ts'.
        elim x
          as (λ x.
            Continues inv measure P (measure l s ts) x s' ts'
            → Ends P Q (elim x [ inl l' ↦ loop round k l' s' ts' | inr r ↦ returned r s' ts' ])) [
              | inl l' ↦ λ (i', lt'). loop_inv inv measure round step k l' s' ts' i' (omega arith)
              | inr r ↦ λ p. ends p
            ]
