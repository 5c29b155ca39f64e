-- ===== src/Kernel/Signal/Handling.antt =====
-- Which signals do_signals handles.
use posnk.Base.{
  ℕ, zero, suc, ◌+◌, ◌-◌, ◌≤◌, ◌<◌, ◌≡◌, refl, ap, ◌∙◌, Bool, true, false, not, ◌&&◌, ◌==◌, List,
  [], ◌∷◌, ◌++◌, arith, Bool-cases, inl, inr, ==_refl,
}
use native.Mathlib.Decide.{dec_lt}
use native.Mathlib.Nat.{zero-add, add-zero}
use posnk.Kernel.Outcome.{Turn, returned}
use posnk.Kernel.Physmm.Search.{IsFirst}
use posnk.Kernel.Signal.{Sigset, function, ProcessInfo, invoke}
use posnk.Kernel.Signal.Handle.{
  asks, process_handle_signal, take_pending, handle_set, active_set, do_signals,
}

module _ (t : ℕ) (thread : Bool) (active : Sigset) (p : ProcessInfo)
    (ts : List (Turn ProcessInfo)) where
  -- The loop passes over signals that are not in the set.
  passes_over :
      (k n sig : ℕ)
      → ((s : ℕ) → sig ≤ s → s < sig + k → active s ≡ false)
      → handle_set (k + n) sig t thread active p ts ≡ handle_set n (sig + k) t thread active p ts
  unfolding handle_set
  passes_over zero n sig none_ = rw (zero-add n, add-zero sig)
  passes_over (suc k) n sig none_ =
      let e : suc k + n ≡ suc (k + n) = omega arith in
      rw (e, handle_set, none_ sig (omega arith) (omega arith))
        (passes_over k n (sig + 1) (λ s le lt. none_ s (omega arith) (omega arith))
          ∙ ap (λ s. handle_set n s t thread active p ts) (omega arith))

  set_end : (sig : ℕ) → handle_set 0 sig t thread active p ts ≡ returned tt p ts
  unfolding handle_set
  set_end sig = refl

  handles_none :
      ((s : ℕ) → s < 32 → active s ≡ false)
      → handle_set 32 0 t thread active p ts ≡ returned tt p ts
  handles_none none_ = passes_over 32 0 0 (λ s le lt. none_ s (omega arith)) ∙ set_end 32

and_false : (b : Bool) → (b && false) ≡ false
and_false true = refl
and_false false = refl

-- The process after its function for a signal has been asked for.
abbrev pub caught : (t sig : ℕ) → (thread : Bool) → ProcessInfo → ProcessInfo
caught t sig true p = asks (invoke sig ((p.thread t).signal_info sig)) (take_pending t sig true p)
caught t sig false p = asks (invoke sig (p.signal_info sig)) (take_pending t sig false p)

hits :
    (n t sig f : ℕ) (thread : Bool) (active : Sigset) (p : ProcessInfo)
    (ts : List (Turn ProcessInfo))
    → active sig ≡ true
    → (p.signal_actions sig).sa_handler ≡ function f
    → handle_set (suc n) sig t thread active p ts ≡ returned tt (caught t sig thread p) ts
unfolding handle_set process_handle_signal
hits n t sig f true active p ts on h = rw (handle_set, on, process_handle_signal, h, ==_refl t)
hits n t sig f false active p ts on h = rw (handle_set, on, process_handle_signal, h)

handles_first :
    (t sig f : ℕ) (thread : Bool) (active : Sigset) (p : ProcessInfo) (ts : List (Turn ProcessInfo))
    → sig < 32
    → active sig ≡ true
    → ((s : ℕ) → s < sig → active s ≡ false)
    → (p.signal_actions sig).sa_handler ≡ function f
    → handle_set 32 0 t thread active p ts ≡ returned tt (caught t sig thread p) ts
handles_first t sig f thread active p ts lt on least h =
    let size : 32 ≡ sig + suc (31 - sig) = omega arith in
    ap (λ n. handle_set n 0 t thread active p ts) size
    ∙ passes_over t thread active p ts sig (suc (31 - sig)) 0 (λ s le below. least s (omega arith))
    ∙ ap (λ s. handle_set (suc (31 - sig)) s t thread active p ts) (zero-add sig)
    ∙ hits (31 - sig) t sig f thread active p ts on h

module _ (t : ℕ) (p : ProcessInfo) (ts : List (Turn ProcessInfo)) where
  -- A thread with no signal of its own to handle handles none: the signals that are pending for its
  -- process stay pending, whatever they are.
  pub do_signals_none :
      ((s : ℕ) → s < 32 → active_set t p s ≡ false) → do_signals t p ts ≡ returned tt p ts
  unfolding do_signals
  do_signals_none none_ =
      let loop = λ (thread : Bool). handles_none t thread (active_set t p) p ts none_ in
      elim (Bool-cases (p.thread t).state.interrupted) [
        | inl e ↦ rw e
        | inr e ↦ rw (e, loop true, loop false)
      ]

  active-caught :
      (a s : ℕ) → active_set t (caught t a true p) s ≡ (active_set t p s && not (s == a))
  active-caught a s = rw (==_refl t) (ground arith)

  least_caught :
      (a b : ℕ)
      → IsFirst (active_set t p) 0 32 a
      → IsFirst (active_set t p) (a + 1) 32 b
      → (s : ℕ) → s < b
      → active_set t (caught t a true p) s ≡ false
  least_caught a b first second s lt = active-caught a s ∙ elim (dec_lt s a) [
    | yes before ↦ rw (first.least s (omega arith) before)
    | no behind ↦ elim (Bool-cases (s == a)) [
      | inl same ↦ rw same (and_false (active_set t p s))
      | inr other ↦ rw (second.least s (ground (arith, other, behind)) lt)
    ]
  ]

  -- If the first two signals that a thread has to handle have functions, both functions are asked for,
  -- the second one with the information of the process, and the second signal stays pending.
  pub do_signals_twice :
      (a b f g : ℕ)
      → (p.thread t).state.interrupted ≡ false
      → IsFirst (active_set t p) 0 32 a
      → IsFirst (active_set t p) (a + 1) 32 b
      → (p.signal_actions a).sa_handler ≡ function f
      → (p.signal_actions b).sa_handler ≡ function g
      → (q : ProcessInfo) × (do_signals t p ts ≡ returned tt q ts)
        × (q.effects
            ≡ (p.effects ++ (invoke a ((p.thread t).signal_info a) ∷ []))
              ++ (invoke b (p.signal_info b) ∷ []))
        × ((q.thread t).signal_pending b ≡ true)
        × ((q.thread t).signal_pending a ≡ false)
  unfolding do_signals
  do_signals_twice a b f g runs first second ha hb =
      let q = caught t a true p in
      let pending_b : (p.thread t).signal_pending b ≡ true = ground (arith, second.is_set) in
      let behind : (b == a) ≡ false = ground (arith, second.above) in
      let run =
        handles_first t a f true (active_set t p) p ts first.below first.is_set
          (λ s lt. first.least s (omega arith) lt) ha in
      let active_b : active_set t q b ≡ true = active-caught a b ∙ rw (second.is_set, behind) in
      let least_b : (s : ℕ) → s < b → active_set t q s ≡ false = least_caught a b first second in
      let run' = handles_first t b g false (active_set t q) q ts second.below active_b least_b hb in
      (
        caught t b false q,
        rw (runs, run, run'),
        refl,
        rw (==_refl t, pending_b, behind),
        rw (==_refl t, ==_refl a) (and_false ((p.thread t).signal_pending a)),
      )
