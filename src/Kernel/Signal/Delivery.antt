-- ===== src/Kernel/Signal/Delivery.antt =====
-- Signals that are raised for a process and for a thread.
use posnk.Base.{
  ℕ, ◌<◌, ◌≡◌, ◌≢◌, refl, ap, ◌∙◌, Bool, true, false, not, ◌&&◌, ◌||◌, ◌==◌, if◌then◌else◌, none,
  some, arith, Bool-cases, inl, inr, ==_refl, lt→ltb, ne→==,
}
use posnk.Kernel.Physmm.{is_zero}
use posnk.Kernel.Physmm.Search.{first_bit_lem, is_zero_lem}
use posnk.Util.Mruc.Members.{has}
use posnk.Kernel.Signal.{
  Sigset, sigaddset, DebugSig, ProcessInfo, process_debug_stop, scheduler_debug_stop_task,
}
use posnk.Kernel.Signal.Send.{
  discard, raise_process, raise_thread, is_stopped, process_handle_signal_scheduling,
  process_send_signal, thread_send_signal, enqueue_dbg_signal,
}
use posnk.Kernel.Signal.Threads.{for_each-Threads}
use posnk.Kernel.Signal.Sending.{
  scheduling_state, scheduling-interrupt, left_over, drops, discard-drops, pending_some,
}
use posnk.Kernel.Signal.Number

-- The process `q` after `signal` has been raised for `p`.
pub record Raised (signal info : ℕ) (p q : ProcessInfo) : Type 0 where
  pub pending :
      (s : ℕ) → q.signal_pending s ≡ ((s == signal || p.signal_pending s) && not (drops signal s))
  pub first_info :
      (s : ℕ)
      → q.signal_info s
        ≡ (if s == signal && not (p.signal_pending signal) then info else p.signal_info s)
  pub resumed : q.state ≡ (
      if (q.signal_pending Number.sigcont || q.signal_pending Number.sigkill) && is_stopped p.state
      then p.old_state
      else p.state)
  pub interrupted :
      (u : ℕ)
      → has u p.tasks ≡ true
      → (q.thread u).state.interrupt ≡ (
          not (
            is_zero
              (left_over q.signal_pending (p.thread u).signal_pending (p.thread u).signal_mask))
          || (p.thread u).state.interrupt)

module _ (allocated forced : Bool) (signal info : ℕ) (p : ProcessInfo) where
  raised_run :
      (forced || not p.traced) ≡ true
      → signal ≢ 0
      → signal < 32
      → process_send_signal allocated forced signal info p
        ≡ some (process_handle_signal_scheduling (raise_process signal info p))
  unfolding process_send_signal
  raised_run passes some_ lt =
      let by : (not forced && not (signal == 0) && p.traced) ≡ false = ground (arith, passes) in
      rw (by, lt→ltb _ _ lt, ne→== _ _ some_)

  -- A signal that is not for a tracer becomes pending, unless a tracer passes; the signals that it
  -- excludes no longer are, and the first to raise it sets its information. A stopped process that has
  -- SIGCONT or SIGKILL pending is in its old state, and each thread that does not mask all that is
  -- pending is interrupted.
  pub process_send_signal_lem :
      (forced || not p.traced) ≡ true
      → signal ≢ 0
      → signal < 32
      → (q : ProcessInfo) × (process_send_signal allocated forced signal info p ≡ some q)
        × Raised signal info p q
  process_send_signal_lem passes some_ lt =
      let r = raise_process signal info p in
      let state = scheduling_state r in
      let set : (process_handle_signal_scheduling r).signal_pending ≡ r.signal_pending =
        ap (λ (q : ProcessInfo). q.signal_pending) state in
      (
        process_handle_signal_scheduling r,
        raised_run passes some_ lt,
        record {
          pending = λ s.
              ap (λ (f : Sigset). f s) set
              ∙ discard-drops signal (sigaddset signal p.signal_pending) s;
          first_info = λ s. ap (λ (q : ProcessInfo). q.signal_info s) state;
          resumed = rw set (ap (λ (q : ProcessInfo). q.state) state);
          interrupted =
              λ u m. rw set (scheduling-interrupt r u (pending_some signal p.signal_pending lt) m);
        },
      )

-- SIGCONT and a stopping signal are not both in a set.
abbrev pub exclusive : Sigset → Bool
exclusive set = not (
    set Number.sigcont
    && (set Number.sigstop || set Number.sigtstp || set Number.sigttin || set Number.sigttou))

discard-exclusive :
    (signal : ℕ) (set : Sigset)
    → exclusive set ≡ true
    → exclusive (discard signal (sigaddset signal set)) ≡ true
discard-exclusive signal set e = ground (arith, e)

discarded-exclusive :
    (signal : ℕ) (set : Sigset) → exclusive set ≡ true → exclusive (discard signal set) ≡ true
discarded-exclusive signal set e = ground (arith, e)

-- The tracer's queue leaves the pending sets as they were.
enqueued :
    (allocated : Bool) (sig : DebugSig) (p : ProcessInfo)
    → (enqueue_dbg_signal allocated sig p).signal_pending ≡ p.signal_pending
unfolding enqueue_dbg_signal process_debug_stop
enqueued true sig p =
    ap (λ (q : ProcessInfo). q.signal_pending)
      (for_each-Threads scheduler_debug_stop_task p.tasks p)
enqueued false sig p =
    ap (λ (q : ProcessInfo). q.signal_pending)
      (for_each-Threads scheduler_debug_stop_task p.tasks p)

scheduled-pending :
    (p : ProcessInfo) → (process_handle_signal_scheduling p).signal_pending ≡ p.signal_pending
scheduled-pending p = ap (λ (q : ProcessInfo). q.signal_pending) (scheduling_state p)

raised-member : (signal : ℕ) (set : Sigset) → discard signal (sigaddset signal set) signal ≡ true
raised-member signal set = ground arith

-- A set that is empty stays so.
discard-is_zero :
    (signal : ℕ) (set : Sigset) → is_zero set ≡ true → is_zero (discard signal set) ≡ true
unfolding is_zero
discard-is_zero signal set z = elim (is_zero_lem set) [
  | inr some_ ↦ absurd (cc (z, some_))
  | inl (_, nothing) ↦ elim (first_bit_lem 32 0 (discard signal set)) [
    | inl (run', _) ↦ rw (is_zero, run')
    | inr (j, run', f) ↦ absurd (
        cc (f.is_set, discard-drops signal set j, nothing j (omega arith) (omega (arith, f.below))))
  ]
]

module _ (allocated forced : Bool) (signal info : ℕ) (p : ProcessInfo) where
  -- Whatever signal is sent to a process, traced or not, SIGCONT and a stopping signal are never both
  -- pending for it, if they were not before.
  pub process_send_signal-exclusive :
      signal < 32
      → exclusive p.signal_pending ≡ true
      → (q : ProcessInfo) × (process_send_signal allocated forced signal info p ≡ some q)
        × (exclusive q.signal_pending ≡ true)
  unfolding process_send_signal
  process_send_signal-exclusive lt e =
      let dbg : DebugSig = record { task = none; signal = signal; info = info } in
      elim (Bool-cases (not forced && not (signal == 0) && p.traced)) [
        | inl traces ↦
            (enqueue_dbg_signal allocated dbg p, rw traces, rw (enqueued allocated dbg p) e)
        | inr goes_on ↦ elim (Bool-cases (signal == 0)) [
          | inl none_ ↦ (p, rw (goes_on, lt→ltb _ _ lt, none_), e)
          | inr some_ ↦ (
            process_handle_signal_scheduling (raise_process signal info p),
            rw (goes_on, lt→ltb _ _ lt, some_),
            rw (scheduled-pending (raise_process signal info p))
                (discard-exclusive signal p.signal_pending e),
          )
        ]
      ]

  -- A signal for a thread of a process that has none pending interrupts nobody and resumes nothing: only
  -- pending signals and their information change.
  pub thread_send_signal_unseen :
      (t : ℕ)
      → (forced || not p.traced) ≡ true
      → signal ≢ 0
      → signal < 32
      → is_zero p.signal_pending ≡ true
      → (q : ProcessInfo) × (thread_send_signal allocated forced t signal info p ≡ some q)
        × ((q.thread t).signal_pending signal ≡ true)
        × ((u : ℕ) → (q.thread u).state ≡ (p.thread u).state)
        × (q.state ≡ p.state)
  unfolding thread_send_signal process_handle_signal_scheduling
  thread_send_signal_unseen t passes some_ lt z =
      let by : (not forced && not (signal == 0) && p.traced) ≡ false = ground (arith, passes) in
      let r = raise_thread t signal info p in
      let nothing : is_zero r.signal_pending ≡ true = discard-is_zero signal p.signal_pending z in
      (
        r,
        rw (by, lt→ltb _ _ lt, ne→== _ _ some_, nothing),
        rw (==_refl t) (raised-member signal (p.thread t).signal_pending),
        λ u. elim (Bool-cases (u == t)) [ inl e ↦ rw e | inr e ↦ rw e ],
        refl,
      )
