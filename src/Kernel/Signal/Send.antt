-- ===== src/Kernel/Signal/Send.antt =====
-- Signals are raised: process_send_signal, thread_send_signal, process_signal_pgroup, and the queue of
-- a traced process. A `signal` is a number and whether it is given with a minus sign, which passes the
-- tracer. `none` is a failed assertion.
use posnk.Base.{
  ℕ, zero, suc, ◌+◌, Bool, true, false, not, ◌&&◌, ◌||◌, ◌==◌, ltb, if◌then◌else◌, List, [], ◌∷◌,
  ◌++◌, Option, none, some,
}
use posnk.Kernel.Physmm.{is_zero}
use posnk.Kernel.Permissions.{Process, get_perm_class, perm_class_owner}
use posnk.Kernel.Outcome.{Turn, Outcome, returned, and_then}
use posnk.Kernel.Scheduler.{Sem, WaitResult, wait_ok}
use posnk.Kernel.Synch.{semaphore_up, semaphore_init, interruptible_down}
use posnk.Kernel.Signal.{
  Sigset, Sigaction, sigaddset, sigdelset, sig_dfl, sig_ign, function, DebugSig, ready, stopped,
  killed, State, ProcessInfo, on_thread, scheduler_interrupt_task, process_continue,
  process_debug_stop, process_debug_start,
}
use posnk.Kernel.Signal.Number

abbrev pub is_stopping : ℕ → Bool
is_stopping sig =
    sig == Number.sigstop || sig == Number.sigtstp || sig == Number.sigttin || sig == Number.sigttou

-- SIGCONT takes the stopping signals out of a set, and a stopping signal takes SIGCONT out.
abbrev pub discard : ℕ → Sigset → Sigset
discard sig set =
    let set' =
      if sig == Number.sigcont
      then sigdelset Number.sigttou
          (sigdelset Number.sigttin (sigdelset Number.sigtstp (sigdelset Number.sigstop set)))
      else set in
    if is_stopping sig then sigdelset Number.sigcont set' else set'

-- Whether the loop finds a pending signal with a handler, among `n` signals from `sig` on.
unfoldable pub has_handler : ℕ → ℕ → Sigset → (ℕ → Sigaction) → Bool
has_handler zero sig pending actions = false
has_handler (suc n) sig pending actions =
    let rest = has_handler n (sig + 1) pending actions in
    if not (pending sig)
    then rest
    else elim (actions sig).sa_handler [ sig_ign ↦ rest | sig_dfl ↦ rest | function f ↦ true ]

-- The signals that a thread has to handle.
abbrev pub unmasked : ProcessInfo → ℕ → Sigset
unmasked p t sig =
    ((p.thread t).signal_pending sig || p.signal_pending sig) && not ((p.thread t).signal_mask sig)

unfoldable pub thread_handle_signal_scheduling : ℕ → ProcessInfo → ProcessInfo
unfolding has_handler is_zero
thread_handle_signal_scheduling t p =
    if has_handler 32 0 (unmasked p t) p.signal_actions
    then on_thread t scheduler_interrupt_task p
    else if is_zero (unmasked p t)
    then p
    else on_thread t scheduler_interrupt_task p

unfoldable pub handle_threads : List ℕ → ProcessInfo → ProcessInfo
unfolding thread_handle_signal_scheduling
handle_threads [] p = p
handle_threads (t ∷ ts) p = handle_threads ts (thread_handle_signal_scheduling t p)

abbrev pub is_stopped : State → Bool
is_stopped stopped = true
is_stopped ready = false
is_stopped killed = false

unfoldable pub process_handle_signal_scheduling : ProcessInfo → ProcessInfo
unfolding is_zero handle_threads
process_handle_signal_scheduling p =
    if is_zero p.signal_pending
    then p
    else let p' =
        if (p.signal_pending Number.sigcont || p.signal_pending Number.sigkill)
          && is_stopped p.state
        then process_continue p
        else p in
      handle_threads p'.tasks p'

-- The process stops until the tracer has looked; without memory for the entry the signal is lost.
unfoldable pub enqueue_dbg_signal : (allocated : Bool) → DebugSig → ProcessInfo → ProcessInfo
unfolding process_debug_stop semaphore_up
enqueue_dbg_signal allocated sig p =
    let p' = process_debug_stop p in
    if not allocated then p' else record p' {
      sig_queue = p'.sig_queue ++ (sig ∷ []);
      sig_queue_sem = semaphore_up p'.sig_queue_sem;
    }

-- The first to raise a signal sets its information.
abbrev pub note_info : ℕ → ℕ → Sigset → (ℕ → ℕ) → ℕ → ℕ
note_info sig info pending old s = if s == sig && not (pending sig) then info else old s

abbrev pub raise_process : ℕ → ℕ → ProcessInfo → ProcessInfo
raise_process sig info p = record p {
  signal_info = note_info sig info p.signal_pending p.signal_info;
  signal_pending = discard sig (sigaddset sig p.signal_pending);
}

-- A signal to a thread discards those of its process too.
abbrev pub raise_thread : ℕ → ℕ → ℕ → ProcessInfo → ProcessInfo
raise_thread t sig info p =
    on_thread t
      (λ th. record th {
        signal_info = note_info sig info th.signal_pending th.signal_info;
        signal_pending = discard sig (sigaddset sig th.signal_pending);
      })
      (record p { signal_pending = discard sig p.signal_pending })

unfoldable pub process_send_signal :
    (allocated forced : Bool) → (signal info : ℕ) → ProcessInfo → Option ProcessInfo
unfolding enqueue_dbg_signal
process_send_signal allocated forced signal info p =
    if not forced && not (signal == 0) && p.traced
    then some
        (enqueue_dbg_signal allocated (record { task = none; signal = signal; info = info }) p)
    else if not (ltb signal 32)
    then none
    else if signal == 0
    then some p
    else some (process_handle_signal_scheduling (raise_process signal info p))

unfoldable pub thread_send_signal :
    (allocated forced : Bool) → (task signal info : ℕ) → ProcessInfo → Option ProcessInfo
unfolding enqueue_dbg_signal
thread_send_signal allocated forced task signal info p =
    if not forced && not (signal == 0) && p.traced
    then some
        (enqueue_dbg_signal allocated (record { task = some task; signal = signal; info = info }) p)
    else if not (ltb signal 32)
    then none
    else if signal == 0
    then some p
    else some (process_handle_signal_scheduling (raise_thread task signal info p))

-- `true` is EBUSY.
unfoldable pub process_debug_attach : ProcessInfo → Bool × ProcessInfo
process_debug_attach p =
    if p.traced
    then (true, p)
    else (false, record p { sig_queue_sem = semaphore_init; sig_queue = []; traced = true })

unfoldable pub process_deliver_signal : DebugSig → ProcessInfo → Option ProcessInfo
unfolding process_send_signal thread_send_signal
process_deliver_signal sig p = elim sig.task [
  | none ↦ process_send_signal true true sig.signal sig.info p
  | some t ↦ thread_send_signal true true t sig.signal sig.info p
]

unfoldable pub deliver_all : List DebugSig → ProcessInfo → Option ProcessInfo
unfolding process_deliver_signal
deliver_all [] p = some p
deliver_all (sig ∷ sigs) p = elim (process_deliver_signal sig p) [
  | none ↦ none
  | some p' ↦ deliver_all sigs p'
]

-- The entries are freed where they stand in the queue, which is set up anew when a tracer attaches.
unfoldable pub process_debug_detach : ProcessInfo → Option ProcessInfo
unfolding deliver_all process_debug_start
process_debug_detach p =
    if not p.traced then some p else elim (deliver_all p.sig_queue (record p { traced = false })) [
      | none ↦ none
      | some p' ↦ some (process_debug_start p')
    ]

abbrev pub queue_sem : Sem ProcessInfo
queue_sem = record { value = λ p. p.sig_queue_sem; put = λ v p. record p { sig_queue_sem = v } }

-- The first entry is taken off the queue of a process that is still traced.
unfoldable pub take_sig : WaitResult → ProcessInfo → Option DebugSig × ProcessInfo
take_sig wait_ok p = elim p.sig_queue [
  | [] ↦ (none, p)
  | sig ∷ rest ↦ (some sig, record p { sig_queue = rest })
]
take_sig _ p = (none, p)

unfoldable pub process_debug_getsig :
    ProcessInfo → List (Turn ProcessInfo) → Outcome ProcessInfo (Option DebugSig)
unfolding take_sig
process_debug_getsig p ts =
    if not p.traced
    then returned none p ts
    else and_then (interruptible_down queue_sem p ts)
        λ r p' ts'. let (sig, p'') = take_sig r p' in returned sig p'' ts'

abbrev pass_over :
    (denied : Bool)
    → ProcessInfo
    → Option (ℕ × Bool × List ProcessInfo)
    → Option (ℕ × Bool × List ProcessInfo)
pass_over denied p none = none
pass_over denied p (some (n, eperm, ps)) = some (n, denied || eperm, p ∷ ps)

-- Every process of the group that the caller may signal; init and process 2 are left out. The number
-- of signals sent, and whether an error was set.
unfoldable pub process_signal_pgroup :
    Process
    → (allocated forced : Bool) → (pgid signal info : ℕ) → List ProcessInfo
    → Option (ℕ × Bool × List ProcessInfo)
unfolding process_send_signal
process_signal_pgroup caller allocated forced pgid signal info [] = some (0, false, [])
process_signal_pgroup caller allocated forced pgid signal info (p ∷ ps) =
    let rest = process_signal_pgroup caller allocated forced pgid signal info ps in
    if not (ltb 1 p.pid && not (p.pid == 2) && p.pgid == pgid)
    then pass_over false p rest
    else if not (get_perm_class caller p.uid p.gid == perm_class_owner)
    then pass_over true p rest
    else elim (process_send_signal allocated forced signal info p) [
      | none ↦ none
      | some p' ↦ elim rest [ none ↦ none | some (n, eperm, ps') ↦ some (n + 1, eperm, p' ∷ ps') ]
    ]
