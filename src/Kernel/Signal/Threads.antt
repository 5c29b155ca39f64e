-- ===== src/Kernel/Signal/Threads.antt =====
-- What the loops over the threads of a process change.
use posnk.Base.{
  ℕ, zero, suc, ◌+◌, ◌≤◌, ◌<◌, ◌≡◌, refl, ap, ap₂, ◌∙◌, Bool, true, false, not, ◌&&◌, ◌||◌, ◌==◌,
  if◌then◌else◌, List, [], ◌∷◌, arith, Bool-cases, inl, inr, ==→eq, ==_refl,
}
use posnk.Kernel.Physmm.{is_zero}
use posnk.Kernel.Physmm.Search.{is_zero_lem}
use posnk.Util.Mruc.Members.{has}
use posnk.Kernel.Signal.{
  Sigset, Sigaction, Thread, ProcessInfo, on_thread, for_each, scheduler_interrupt_task,
}
use posnk.Kernel.Signal.Send.{
  has_handler, unmasked, thread_handle_signal_scheduling, handle_threads,
}

-- Only threads change.
abbrev pub Threads : ProcessInfo → ProcessInfo → Type 0
Threads p q = q ≡ record p { thread = q.thread }

pub for_each-Threads :
    (f : Thread → Thread) (ts : List ℕ) (p : ProcessInfo) → Threads p (for_each f ts p)
unfolding for_each
for_each-Threads f [] p = refl
for_each-Threads f (t ∷ ts) p = for_each-Threads f ts (on_thread t f p)

-- A handler is only found at a pending signal.
has_handler-none :
    (n sig : ℕ) (pending : Sigset) (actions : ℕ → Sigaction)
    → ((s : ℕ) → sig ≤ s → s < sig + n → pending s ≡ false)
    → has_handler n sig pending actions ≡ false
unfolding has_handler
has_handler-none zero sig pending actions h = refl
has_handler-none (suc n) sig pending actions h =
    rw (h sig (omega arith) (omega arith))
      (has_handler-none n (sig + 1) pending actions λ s le lt. h s (omega arith) (omega arith))

-- A thread is interrupted exactly when it has a signal to handle: the dispositions of its signals do
-- not matter, so an ignored signal interrupts a system call too.
pub thread_handle_signal_scheduling_lem :
    (t : ℕ) (p : ProcessInfo)
    → thread_handle_signal_scheduling t p
      ≡ (if is_zero (unmasked p t) then p else on_thread t scheduler_interrupt_task p)
unfolding thread_handle_signal_scheduling
thread_handle_signal_scheduling_lem t p = elim (is_zero_lem (unmasked p t)) [
  | inl (zero_, nothing) ↦ rw (
    zero_,
    has_handler-none 32 0 (unmasked p t) p.signal_actions λ s le lt. nothing s le (omega arith),
  )
  | inr some_ ↦ elim (Bool-cases (has_handler 32 0 (unmasked p t) p.signal_actions)) [
    | inl hit ↦ rw (hit, some_)
    | inr miss ↦ rw (miss, some_)
  ]
]

handle-Threads : (t : ℕ) (p : ProcessInfo) → Threads p (thread_handle_signal_scheduling t p)
handle-Threads t p = elim (Bool-cases (is_zero (unmasked p t))) [
  | inl z ↦ rw (thread_handle_signal_scheduling_lem t p, z)
  | inr z ↦ rw (thread_handle_signal_scheduling_lem t p, z)
]

abbrev pub with_threads : (ℕ → Thread) → ProcessInfo → ProcessInfo
with_threads th p = record p { thread = th }

pub handle_threads-Threads : (ts : List ℕ) (p : ProcessInfo) → Threads p (handle_threads ts p)
unfolding handle_threads
handle_threads-Threads [] p = refl
handle_threads-Threads (t ∷ ts) p =
    let q = thread_handle_signal_scheduling t p in
    handle_threads-Threads ts q
    ∙ ap (λ (r : ProcessInfo). with_threads (handle_threads ts q).thread r) (handle-Threads t p)

-- A thread that is interrupted, or was, if `b`.
abbrev pub interrupted_if : Bool → Thread → Thread
interrupted_if b t = record t { state = record t.state { interrupt = b || t.state.interrupt } }

-- The thread `u` after the look at `t`.
handle-thread :
    (t u : ℕ) (p : ProcessInfo)
    → (thread_handle_signal_scheduling t p).thread u
      ≡ interrupted_if (u == t && not (is_zero (unmasked p u))) (p.thread u)
handle-thread t u p = elim (Bool-cases (u == t)) [
  | inl same ↦ elim (Bool-cases (is_zero (unmasked p t))) [
    | inl z ↦ rw (==→eq u t same, thread_handle_signal_scheduling_lem t p, ==_refl t, z)
    | inr z ↦ rw (==→eq u t same, thread_handle_signal_scheduling_lem t p, z, ==_refl t)
  ]
  | inr other ↦ elim (Bool-cases (is_zero (unmasked p t))) [
    | inl z ↦ rw (other, thread_handle_signal_scheduling_lem t p, z)
    | inr z ↦ rw (other, thread_handle_signal_scheduling_lem t p, z, other)
  ]
]

-- Looking at one thread leaves what another has to handle as it is.
handle-unmasked :
    (t u : ℕ) (p : ProcessInfo)
    → is_zero (unmasked (thread_handle_signal_scheduling t p) u) ≡ is_zero (unmasked p u)
handle-unmasked t u p =
    ap₂
      (λ (th : Thread) (pending : Sigset).
        is_zero λ sig. (th.signal_pending sig || pending sig) && not (th.signal_mask sig))
      (handle-thread t u p) (ap (λ (q : ProcessInfo). q.signal_pending) (handle-Threads t p))

pub ==_sym : (a b : ℕ) → (a == b) ≡ (b == a)
==_sym a b = ground arith

interrupted_twice :
    (h e z : Bool) (t : Thread)
    → interrupted_if (h && not z) (interrupted_if (e && not z) t)
      ≡ interrupted_if ((e || h) && not z) t
interrupted_twice true true true t = refl
interrupted_twice true true false t = refl
interrupted_twice true false true t = refl
interrupted_twice true false false t = refl
interrupted_twice false true true t = refl
interrupted_twice false true false t = refl
interrupted_twice false false true t = refl
interrupted_twice false false false t = refl

-- After the loop over threads each of them that has a signal to handle is interrupted, and nothing
-- else has changed.
pub handle_threads_lem :
    (ts : List ℕ) (p : ProcessInfo) (u : ℕ)
    → (handle_threads ts p).thread u
      ≡ interrupted_if (has u ts && not (is_zero (unmasked p u))) (p.thread u)
unfolding handle_threads
handle_threads_lem [] p u = refl
handle_threads_lem (t ∷ ts) p u =
    handle_threads_lem ts (thread_handle_signal_scheduling t p) u
    ∙ rw (handle-unmasked t u p, handle-thread t u p, ==_sym t u)
        (interrupted_twice (has u ts) (u == t) (is_zero (unmasked p u)) (p.thread u))
