-- ===== src/Kernel/Signal/Sending.antt =====
-- What process_send_signal and thread_send_signal do to the pending signals.
use posnk.Base.{
  ℕ, ◌<◌, ◌≡◌, refl, ap, ap₂, ◌∙◌, Bool, true, false, not, ◌&&◌, ◌||◌, ◌==◌, if◌then◌else◌, List,
  [], ◌∷◌, arith, Bool-cases, inl, inr, ==→eq, ==_refl,
}
use posnk.Kernel.Physmm.{is_zero}
use posnk.Kernel.Physmm.Search.{is_zero_lem}
use posnk.Util.Mruc.Members.{has}
use posnk.Kernel.Signal.{
  Sigset, sigaddset, Thread, State, ProcessInfo, on_thread, for_each, scheduler_continue_task,
  process_continue,
}
use posnk.Kernel.Signal.Send.{
  is_stopping, discard, is_stopped, unmasked, handle_threads, process_handle_signal_scheduling,
}
use posnk.Kernel.Signal.Threads.{
  for_each-Threads, handle_threads-Threads, handle_threads_lem, interrupted_if, with_threads,
  ==_sym,
}
use posnk.Kernel.Signal.Number

-- Signals that resume a stopped process.
abbrev pub resumes : ProcessInfo → Bool
resumes p =
    (p.signal_pending Number.sigcont || p.signal_pending Number.sigkill) && is_stopped p.state

abbrev pub next_state : ProcessInfo → State
next_state p = if resumes p then p.old_state else p.state

if_same {ℓ} : {A : Type ℓ} (b : Bool) (x : A) → (if b then x else x) ≡ x
if_same true x = refl
if_same false x = refl

continued :
    (ts : List ℕ) (p : ProcessInfo) (u : ℕ)
    → (for_each scheduler_continue_task ts p).thread u
      ≡ (if has u ts then scheduler_continue_task (p.thread u) else p.thread u)
unfolding for_each
continued [] p u = refl
continued (t ∷ ts) p u = elim (Bool-cases (u == t)) [
  | inl same ↦
      continued ts (on_thread t scheduler_continue_task p) u
      ∙ rw (==→eq u t same, ==_refl t) (if_same (has t ts) (scheduler_continue_task (p.thread t)))
  | inr other ↦
      continued ts (on_thread t scheduler_continue_task p) u ∙ rw (other, ==_sym t u, other)
]

-- The process before its threads are looked at.
abbrev woken : ProcessInfo → ProcessInfo
woken p = if resumes p then process_continue p else p

woken-Threads :
    (p : ProcessInfo) → woken p ≡ record p { state = next_state p; thread = (woken p).thread }
unfolding process_continue
woken-Threads p = elim (Bool-cases (resumes p)) [
  | inl on ↦
      rw on (for_each-Threads scheduler_continue_task p.tasks (record p { state = p.old_state }))
  | inr off ↦ rw off
]

resumes-none : (p : ProcessInfo) → is_zero p.signal_pending ≡ true → resumes p ≡ false
resumes-none p z = elim (is_zero_lem p.signal_pending) [
  | inl (_, nothing) ↦ rw (
    nothing Number.sigcont (omega arith) (omega arith),
    nothing Number.sigkill (omega arith) (omega arith),
  )
  | inr some_ ↦ absurd (cc (z, some_))
]

pub scheduling_state :
    (p : ProcessInfo)
    → process_handle_signal_scheduling p
      ≡ record p { state = next_state p; thread = (process_handle_signal_scheduling p).thread }
unfolding process_handle_signal_scheduling
scheduling_state p = elim (Bool-cases (is_zero p.signal_pending)) [
  | inl z ↦ rw (z, resumes-none p z)
  | inr z ↦ rw z (
      handle_threads-Threads (woken p).tasks (woken p)
      ∙ ap (with_threads (handle_threads (woken p).tasks (woken p)).thread) (woken-Threads p))
]

-- The thread `u` of a process that may be resumed.
abbrev pub resumed_thread : ProcessInfo → ℕ → Thread
resumed_thread p u =
    if resumes p && has u p.tasks then scheduler_continue_task (p.thread u) else p.thread u

woken-thread : (p : ProcessInfo) (u : ℕ) → (woken p).thread u ≡ resumed_thread p u
unfolding process_continue
woken-thread p u = elim (Bool-cases (resumes p)) [
  | inl on ↦ rw on (continued p.tasks (record p { state = p.old_state }) u)
  | inr off ↦ rw off
]

resumed-mask :
    (p : ProcessInfo) (u : ℕ) → (resumed_thread p u).signal_mask ≡ (p.thread u).signal_mask
resumed-mask p u = elim (Bool-cases (resumes p && has u p.tasks)) [ inl e ↦ rw e | inr e ↦ rw e ]

resumed-pending :
    (p : ProcessInfo) (u : ℕ) → (resumed_thread p u).signal_pending ≡ (p.thread u).signal_pending
resumed-pending p u = elim (Bool-cases (resumes p && has u p.tasks)) [ inl e ↦ rw e | inr e ↦ rw e ]

abbrev pub left_over : (process pending mask : Sigset) → Sigset
left_over process pending mask sig = (pending sig || process sig) && not (mask sig)

woken-unmasked : (p : ProcessInfo) (u : ℕ) → unmasked (woken p) u ≡ unmasked p u
woken-unmasked p u =
    ap₂ (λ (th : Thread) (pending : Sigset). left_over pending th.signal_pending th.signal_mask)
      (woken-thread p u) (ap (λ (q : ProcessInfo). q.signal_pending) (woken-Threads p))
    ∙ ap₂ (left_over p.signal_pending) (resumed-pending p u) (resumed-mask p u)

pub scheduling_thread :
    (p : ProcessInfo) (u : ℕ)
    → is_zero p.signal_pending ≡ false
    → (process_handle_signal_scheduling p).thread u
      ≡ interrupted_if (has u p.tasks && not (is_zero (unmasked p u))) (resumed_thread p u)
unfolding process_handle_signal_scheduling
scheduling_thread p u z = rw z (
    handle_threads_lem (woken p).tasks (woken p) u
    ∙ ap₂ interrupted_if
        (ap₂ (λ (ts : List ℕ) (set : Sigset). has u ts && not (is_zero set))
          (ap (λ (q : ProcessInfo). q.tasks) (woken-Threads p)) (woken-unmasked p u))
        (woken-thread p u))

-- The signals that the arrival of `signal` takes out of a pending set.
abbrev pub drops : ℕ → ℕ → Bool
drops signal s =
    (signal == Number.sigcont && is_stopping s) || (is_stopping signal && s == Number.sigcont)

pub discard-drops :
    (signal : ℕ) (set : Sigset) (s : ℕ) → discard signal set s ≡ (set s && not (drops signal s))
discard-drops signal set s = ground arith

-- A signal does not take itself out.
drops_self : (signal : ℕ) → drops signal signal ≡ false
drops_self signal = ground arith

pub pending_some :
    (signal : ℕ) (set : Sigset)
    → signal < 32
    → is_zero (discard signal (sigaddset signal set)) ≡ false
pending_some signal set lt = elim (is_zero_lem (discard signal (sigaddset signal set))) [
  | inr some_ ↦ some_
  | inl (_, nothing) ↦ absurd (
      cc (
        nothing signal (omega arith) lt,
        discard-drops signal (sigaddset signal set) signal,
        drops_self signal,
        ==_refl signal,
      ))
]

resumed-interrupt :
    (p : ProcessInfo) (u : ℕ) → (resumed_thread p u).state.interrupt ≡ (p.thread u).state.interrupt
resumed-interrupt p u = elim (Bool-cases (resumes p && has u p.tasks)) [
  | inl e ↦ rw e
  | inr e ↦ rw e
]

pub scheduling-interrupt :
    (p : ProcessInfo) (u : ℕ)
    → is_zero p.signal_pending ≡ false
    → has u p.tasks ≡ true
    → ((process_handle_signal_scheduling p).thread u).state.interrupt
      ≡ (not (is_zero (unmasked p u)) || (p.thread u).state.interrupt)
scheduling-interrupt p u some_ m =
    ap (λ (th : Thread). th.state.interrupt) (scheduling_thread p u some_)
    ∙ ap (λ b. (has u p.tasks && not (is_zero (unmasked p u))) || b) (resumed-interrupt p u)
    ∙ rw m
