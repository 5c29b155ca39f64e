-- ===== src/Kernel/Signal/Handle.antt =====
-- Signals are handled when a thread is about to return to its program: do_signals. The state is the
-- process, `t` its current thread. Each call of `schedule` takes a turn, in which other tasks run.
use posnk.Base.{
  ℕ, zero, suc, ◌+◌, Bool, true, false, not, ◌&&◌, ◌||◌, ◌==◌, leb, if◌then◌else◌, List, [], ◌∷◌,
  ◌++◌, bit_and,
}
use posnk.Kernel.Outcome.{Turn, Outcome, returned, asleep, and_then}
use posnk.Kernel.Signal.{
  Sigset, sigdelset, sig_dfl, sig_ign, function, killed, Effect, child_stopped, child_killed,
  close_all, clear_mmaps, invoke, ProcessInfo, on_thread, process_stop, process_deschedule,
}

-- SIGNAL_ACTION_ABORT, which dumps no core, is SIGNAL_ACTION_TERM; SIGNAL_ACTION_CONT is handled like
-- SIGNAL_ACTION_IGNORE.
pub data Action : Type 0 where
  action_term action_ignore action_stop : Action

-- `signal_default_actions`.
abbrev pub default_action : ℕ → Action
default_action sig =
    if sig == 0 || sig == 7 || (leb 18 sig && leb sig 21) || sig == 25
    then action_ignore
    else if sig == 23 || sig == 24 || sig == 26 || sig == 27
    then action_stop
    else action_term

abbrev pub asks : Effect → ProcessInfo → ProcessInfo
asks e p = record p { effects = p.effects ++ (e ∷ []) }

-- `schedule()`.
unfoldable pub schedule_other : ProcessInfo → List (Turn ProcessInfo) → Outcome ProcessInfo Unit
schedule_other p [] = asleep p
schedule_other p (turn ∷ ts) = returned tt (turn.others p) ts

abbrev terminated : ℕ → ProcessInfo → ProcessInfo
terminated sig p = record p { last_signal = sig; term_signal = true; state = killed }

-- The result says whether more signals can be handled.
unfoldable pub process_signal_handler_default :
    ℕ → ProcessInfo → List (Turn ProcessInfo) → Outcome ProcessInfo Bool
unfolding schedule_other process_stop process_deschedule
process_signal_handler_default sig p ts = elim (default_action sig) [
  | action_term ↦
      and_then
        (schedule_other
          (process_deschedule
            (asks clear_mmaps (asks close_all (asks child_killed (terminated sig p)))))
          ts)
        λ _ p' ts'. returned false p' ts'
  | action_stop ↦
      and_then
        (schedule_other (asks child_stopped (process_stop (record p { last_signal = sig }))) ts)
        λ _ p' ts'. returned true p' ts'
  | action_ignore ↦ returned true (record p { last_signal = sig }) ts
]

-- SA_RESETHAND.
abbrev pub sa_resethand : ℕ
sa_resethand = 4

abbrev reset_ignored : ℕ → ProcessInfo → ProcessInfo
reset_ignored sig p = record p {
  signal_actions = λ s.
      if s == sig && not (bit_and (p.signal_actions s).sa_flags sa_resethand == 0)
      then record (p.signal_actions s) { sa_handler = sig_dfl }
      else p.signal_actions s;
}

unfoldable pub process_handle_signal :
    (t sig : ℕ) → (thread : Bool) → ProcessInfo → List (Turn ProcessInfo) → Outcome ProcessInfo Bool
unfolding process_signal_handler_default
process_handle_signal t sig thread p ts = elim (p.signal_actions sig).sa_handler [
  | sig_ign ↦ returned true (reset_ignored sig p) ts
  | sig_dfl ↦ process_signal_handler_default sig p ts
  | function f ↦
      returned false
        (asks (invoke sig (if thread then (p.thread t).signal_info sig else p.signal_info sig)) p)
        ts
]

-- The signal is taken out of the pending set of the thread, or of the process.
abbrev pub take_pending : (t sig : ℕ) → (thread : Bool) → ProcessInfo → ProcessInfo
take_pending t sig true p =
    on_thread t (λ th. record th { signal_pending = sigdelset sig th.signal_pending }) p
take_pending t sig false p = record p { signal_pending = sigdelset sig p.signal_pending }

-- The loop over `n` signals from `sig` on of the set `sig_active`.
unfoldable pub handle_set :
    (n sig t : ℕ)
    → (thread : Bool) → Sigset
    → ProcessInfo
    → List (Turn ProcessInfo)
    → Outcome ProcessInfo Unit
handle_set zero sig t thread active p ts = returned tt p ts
handle_set (suc n) sig t thread active p ts = elim (active sig) [
  | false ↦ handle_set n (sig + 1) t thread active p ts
  | true ↦
      and_then (process_handle_signal t sig thread (take_pending t sig thread p) ts) λ more p' ts'.
        elim more [
          | true ↦ handle_set n (sig + 1) t thread active p' ts'
          | false ↦ returned tt p' ts'
        ]
]

-- The pending signals of the thread that it does not mask.
abbrev pub active_set : ℕ → ProcessInfo → Sigset
active_set t p sig = (p.thread t).signal_pending sig && not ((p.thread t).signal_mask sig)

-- The second loop is over the signals of the thread again, where those of the process are meant.
unfoldable pub do_signals : ℕ → ProcessInfo → List (Turn ProcessInfo) → Outcome ProcessInfo Unit
unfolding handle_set
do_signals t p ts =
    if (p.thread t).state.interrupted
    then returned tt p ts
    else and_then (handle_set 32 0 t true (active_set t p) p ts)
        λ _ p' ts'. handle_set 32 0 t false (active_set t p') p' ts'
