-- ===== src/Tests/Signals.antt =====
-- Signals.
use posnk.Base.{
  ◌+◌, ◌≡◌, refl, true, false, ◌||◌, ◌==◌, if◌then◌else◌, none, some, List, [], ◌∷◌, arith,
}
use posnk.Kernel.Outcome.{Turn, returned, and_then}
use posnk.Kernel.Synch.{running_task}
use posnk.Kernel.Physmm.{is_zero, first_bit}
use posnk.Kernel.Signal.{
  Thread, ProcessInfo, function, ready, stopped, sig_action_default, sigemptyset,
}
use posnk.Kernel.Signal.Send.{process_send_signal}
use posnk.Kernel.Signal.Handle.{do_signals}
use posnk.Kernel.Signal.Api.{eintr, sig_block, sys_sigprocmask, sys_sigsuspend}
use posnk.Kernel.Signal.Delivery.{
  Raised, exclusive, process_send_signal_lem, process_send_signal-exclusive,
}
use posnk.Kernel.Signal.Handling.{do_signals_none}
use posnk.Kernel.Signal.Calls.{
  lets_kill, sys_sigprocmask-lets_kill, until_signal, masking, sys_sigsuspend_lem,
}

-- A thread that masks signal 2 and has 15 and 16 pending.
abbrev worker : Thread
worker = record {
  signal_mask = λ s. s == 2;
  signal_pending = λ s. s == 15 || s == 16;
  signal_info = λ s. s + 100;
  signal_altstack = record { ss_sp = 0; ss_size = 0; ss_flags = 2 };
  state = running_task;
}

-- A stopped process with one thread, for which SIGTSTP is pending; it catches 15 and 16.
abbrev shell : ProcessInfo
shell = record {
  pid = 5;
  uid = 9;
  gid = 4;
  pgid = 5;
  signal_pending = λ s. s == 24;
  signal_actions = λ s.
      if s == 15 || s == 16
      then record { sa_handler = function s; sa_mask = sigemptyset; sa_flags = 0 }
      else sig_action_default;
  signal_info = λ s. s + 200;
  last_signal = 0;
  term_signal = false;
  old_state = ready;
  state = stopped;
  traced = false;
  sig_queue_sem = 0;
  sig_queue = [];
  tasks = 7 ∷ [];
  thread = λ t. worker;
  effects = [];
}

-- The same process, with nothing pending for its thread but SIGTSTP for the process.
abbrev quiet : ProcessInfo
quiet = record shell { thread = λ t. record worker { signal_pending = sigemptyset } }

quiet_is_zero : is_zero quiet.signal_pending ≡ false
unfolding is_zero first_bit
quiet_is_zero = refl

process_send_signal_lem_example :
    (q : ProcessInfo) × (process_send_signal true false 19 1 shell ≡ some q) × Raised 19 1 shell q
process_send_signal_lem_example =
    process_send_signal_lem true false 19 1 shell refl (omega arith) (omega arith)

process_send_signal-exclusive_example :
    (q : ProcessInfo) × (process_send_signal true false 19 1 shell ≡ some q)
    × (exclusive q.signal_pending ≡ true)
process_send_signal-exclusive_example =
    process_send_signal-exclusive true false 19 1 shell (omega arith) refl

do_signals_none_example : do_signals 7 quiet [] ≡ returned tt quiet []
do_signals_none_example = do_signals_none 7 quiet [] λ s lt. refl

sys_sigprocmask-lets_kill_example :
    lets_kill
      (sys_sigprocmask sig_block
        (some (record { usable = true; value = λ s. true }))
        none
        worker).2.signal_mask
    ≡ true
sys_sigprocmask-lets_kill_example =
    sys_sigprocmask-lets_kill sig_block (some (record { usable = true; value = λ s. true })) none
      worker refl

-- The task is interrupted at the second turn.
abbrev nights : List (Turn ProcessInfo)
nights =
    record { others = λ p. p; signal = false; now = 1 }
    ∷ record { others = λ p. p; signal = true; now = 2 }
    ∷ []

sys_sigsuspend_lem_example :
    sys_sigsuspend 7 (record { usable = true; value = sigemptyset }) shell nights
    ≡ and_then
        (until_signal (masking 7 (λ sig. false) shell) nights)
        (λ (r : Unit) q ts'. returned eintr (masking 7 (λ sig. sig == 2) q) ts')
sys_sigsuspend_lem_example = sys_sigsuspend_lem 7 sigemptyset shell nights
