-- ===== src/Kernel/Signal.antt =====
-- kernel/proc/signal.c and signal_api.c: signals of processes and threads. A `sigset_t` is its 32 bits.
-- A process holds its threads by their number; `struct siginfo` is an opaque value.
pub mod Number
pub mod Send
pub mod Handle
pub mod Api
pub mod Threads
pub mod Sending
pub mod Delivery
pub mod Handling
pub mod Calls
use posnk.Base.{
  ℕ, zero, suc, ◌+◌, Bool, true, false, not, ◌&&◌, ◌||◌, ◌==◌, if◌then◌else◌, List, [], ◌∷◌, ◌++◌,
  Option, none, some,
}
use posnk.Kernel.Physmm.{first_bit, is_zero}
use posnk.Kernel.Scheduler.{Task}

abbrev pub Sigset : Type 0
Sigset = ℕ → Bool

abbrev pub sigaddset : ℕ → Sigset → Sigset
sigaddset sig set s = s == sig || set s

abbrev pub sigdelset : ℕ → Sigset → Sigset
sigdelset sig set s = set s && not (s == sig)

abbrev pub sigemptyset : Sigset
sigemptyset s = false

-- SIG_DFL, SIG_IGN, or a function of the process.
pub data Handler : Type 0 where
  sig_dfl sig_ign : Handler
  function : ℕ → Handler

-- `struct sigaction`.
pub record Sigaction : Type 0 where
  pub sa_handler : Handler
  pub sa_mask : Sigset
  pub sa_flags : ℕ

abbrev pub sig_action_default : Sigaction
sig_action_default = record { sa_handler = sig_dfl; sa_mask = sigemptyset; sa_flags = 0 }

-- `stack_t`.
pub record AltStack : Type 0 where
  pub ss_sp : ℕ
  pub ss_size : ℕ
  pub ss_flags : ℕ

-- SS_DISABLE.
abbrev pub ss_disable : ℕ
ss_disable = 2

-- The fields of `scheduler_task_t` for signals, with its scheduling state.
pub record Thread : Type 0 where
  pub signal_mask : Sigset
  pub signal_pending : Sigset
  pub signal_info : ℕ → ℕ
  pub signal_altstack : AltStack
  pub state : Task

-- `struct process_debug_sig`; without a thread the signal is for the process.
pub record DebugSig : Type 0 where
  pub task : Option ℕ
  pub signal : ℕ
  pub info : ℕ

-- The states of a process that signals look at.
pub data State : Type 0 where
  ready stopped killed : State

-- What the rest of the kernel is asked to do.
pub data Effect : Type 0 where
  child_stopped child_killed close_all clear_mmaps : Effect
  invoke : (signal info : ℕ) → Effect

-- The fields of `process_info_t` for signals, with its threads.
pub record ProcessInfo : Type 0 where
  pub pid : ℕ
  pub uid : ℕ
  pub gid : ℕ
  pub pgid : ℕ
  pub signal_pending : Sigset
  pub signal_actions : ℕ → Sigaction
  pub signal_info : ℕ → ℕ
  pub last_signal : ℕ
  pub term_signal : Bool
  pub old_state : State
  pub state : State
  pub traced : Bool
  pub sig_queue_sem : ℕ
  pub sig_queue : List DebugSig
  pub tasks : List ℕ
  pub thread : ℕ → Thread
  pub effects : List Effect

abbrev pub on_thread : ℕ → (Thread → Thread) → ProcessInfo → ProcessInfo
on_thread t f p = record p { thread = λ u. if u == t then f (p.thread u) else p.thread u }

-- The loops over the threads of a process.
unfoldable pub for_each : (Thread → Thread) → List ℕ → ProcessInfo → ProcessInfo
for_each f [] p = p
for_each f (t ∷ ts) p = for_each f ts (on_thread t f p)

abbrev pub scheduler_stop_task : Thread → Thread
scheduler_stop_task t = record t { state = record t.state { stopped = true } }

abbrev pub scheduler_continue_task : Thread → Thread
scheduler_continue_task t = record t { state = record t.state { stopped = false } }

abbrev pub scheduler_interrupt_task : Thread → Thread
scheduler_interrupt_task t = record t { state = record t.state { interrupt = true } }

abbrev pub scheduler_debug_stop_task : Thread → Thread
scheduler_debug_stop_task t = record t { state = record t.state { debug_stop = true } }

abbrev pub scheduler_debug_start_task : Thread → Thread
scheduler_debug_start_task t = record t { state = record t.state { debug_stop = false } }

unfoldable pub process_stop : ProcessInfo → ProcessInfo
unfolding for_each
process_stop p =
    for_each scheduler_stop_task p.tasks (record p { old_state = p.state; state = stopped })

unfoldable pub process_deschedule : ProcessInfo → ProcessInfo
unfolding for_each
process_deschedule p = for_each scheduler_stop_task p.tasks p

-- Asserted to be stopped; its caller has looked.
unfoldable pub process_continue : ProcessInfo → ProcessInfo
unfolding for_each
process_continue p = for_each scheduler_continue_task p.tasks (record p { state = p.old_state })

unfoldable pub process_debug_stop : ProcessInfo → ProcessInfo
unfolding for_each
process_debug_stop p = for_each scheduler_debug_stop_task p.tasks p

unfoldable pub process_debug_start : ProcessInfo → ProcessInfo
unfolding for_each
process_debug_start p = for_each scheduler_debug_start_task p.tasks p

unfoldable pub process_interrupt_all : ProcessInfo → ProcessInfo
unfolding for_each
process_interrupt_all p = for_each scheduler_interrupt_task p.tasks p

unfoldable pub signal_init_process : ProcessInfo → ProcessInfo
signal_init_process p = record p {
  signal_pending = sigemptyset;
  signal_actions = λ sig. sig_action_default;
}

unfoldable pub signal_init_task : Thread → Thread
signal_init_task t = record t {
  signal_pending = sigemptyset;
  signal_mask = sigemptyset;
  signal_altstack = record t.signal_altstack { ss_flags = ss_disable };
}
