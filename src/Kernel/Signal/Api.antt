-- ===== src/Kernel/Signal/Api.antt =====
-- kernel/proc/signal_api.c: the system calls for signals. Whether the pages that a pointer of the
-- program points to are there is an argument.
use posnk.Base.{
  ℕ, Bool, false, not, ◌&&◌, ◌||◌, ◌==◌, ltb, if◌then◌else◌, List, Option, none, some, bit_and,
}
use posnk.Kernel.Outcome.{Turn, Outcome, returned, and_then}
use posnk.Kernel.Scheduler.{Sem}
use posnk.Kernel.Synch.{interruptible_down}
use posnk.Kernel.Signal.{
  Sigset, Sigaction, AltStack, Handler, sig_action_default, Thread, ProcessInfo, on_thread,
  sigdelset, ss_disable,
}
use posnk.Kernel.Signal.Number

pub data ApiStatus : Type 0 where
  ok einval efault enomem eperm eintr : ApiStatus

abbrev pub may_set : ℕ → Bool
may_set sig = ltb sig 32 && not (sig == Number.sigkill) && not (sig == Number.sigstop)

abbrev with_action : ℕ → Sigaction → ProcessInfo → ProcessInfo
with_action sig act p = record p {
  signal_actions = λ s. if s == sig then act else p.signal_actions s;
}

-- The old handler; `none` is SIG_ERR.
unfoldable pub sys_signal : ℕ → Handler → ProcessInfo → Option Handler × ProcessInfo
sys_signal sig disp p = if not (may_set sig) then (none, p) else (
  some (p.signal_actions sig).sa_handler,
  with_action sig (record sig_action_default { sa_handler = disp }) p,
)

-- A pointer of the program, if it is not NULL: whether it can be used, and what it points to.
pub record User (A : Type 0) : Type 0 where
  pub usable : Bool
  pub value : A

-- The old value, where there is a pointer to write it to.
abbrev pub copied {ℓ} : {A : Type ℓ} → Option Bool → A → Option A
copied none a = none
copied (some usable) a = some a

abbrev pub refused : Option Bool → Bool
refused none = false
refused (some usable) = not usable

-- `oact` is whether it can be written, if it is not NULL. The result has the old action as it was
-- written there.
unfoldable pub sys_sigaction :
    ℕ
    → (act : Option (User Sigaction)) → (oact : Option Bool) → ProcessInfo
    → ApiStatus × Option Sigaction × ProcessInfo
sys_sigaction sig act oact p =
    if not (may_set sig)
    then (einval, none, p)
    else if refused oact
    then (efault, none, p)
    else let old = copied oact (p.signal_actions sig) in
      elim act [
        | none ↦ (ok, old, p)
        | some a ↦ if not a.usable then (efault, old, p) else (ok, old, with_action sig a.value p)
      ]

-- SS_ONSTACK and MINSIGSTKSZ.
abbrev pub ss_onstack : ℕ
ss_onstack = 1

abbrev pub minsigstksz : ℕ
minsigstksz = 1024

-- The new stack is looked at before the flag of the old one.
unfoldable pub sys_sigaltstack :
    (ss : Option (User AltStack))
    → (oss : Option Bool) → Thread
    → ApiStatus × Option AltStack × Thread
sys_sigaltstack ss oss t =
    if refused oss
    then (efault, none, t)
    else let old = copied oss t.signal_altstack in
      elim ss [
        | none ↦ (ok, old, t)
        | some s ↦
            if not s.usable
            then (efault, old, t)
            else if ltb s.value.ss_size minsigstksz
            then (enomem, old, t)
            else if not (s.value.ss_flags == 0) && not (s.value.ss_flags == ss_disable)
            then (einval, old, t)
            else if not (bit_and t.signal_altstack.ss_flags ss_onstack == 0)
            then (eperm, old, t)
            else (ok, old, record t { signal_altstack = s.value })
      ]

-- SIGKILL and SIGSTOP are never masked.
abbrev pub maskable : Sigset → Sigset
maskable set = sigdelset Number.sigstop (sigdelset Number.sigkill set)

-- SIG_BLOCK, SIG_SETMASK, SIG_UNBLOCK, or another value.
pub data How : Type 0 where
  sig_block sig_setmask sig_unblock unknown : How

abbrev pub new_mask : How → (set mask : Sigset) → Option Sigset
new_mask sig_block set mask = some (λ s. mask s || set s)
new_mask sig_setmask set mask = some set
new_mask sig_unblock set mask = some (λ s. mask s && not (set s))
new_mask unknown set mask = none

abbrev pub masked : How → Sigset → Option Sigset → Thread → ApiStatus × Option Sigset × Thread
masked how set old t = elim (new_mask how set t.signal_mask) [
  | none ↦ (einval, old, t)
  | some m ↦ (ok, old, record t { signal_mask = maskable m })
]

unfoldable pub sys_sigprocmask :
    How
    → (set : Option (User Sigset)) → (oset : Option Bool) → Thread
    → ApiStatus × Option Sigset × Thread
sys_sigprocmask how set oset t =
    if refused oset
    then (efault, none, t)
    else let old = copied oset t.signal_mask in
      elim set [
        | none ↦ (ok, old, t)
        | some s ↦ if not s.usable then (efault, old, t) else masked how s.value old t
      ]

abbrev pub set_mask : ℕ → Sigset → ProcessInfo → ProcessInfo
set_mask t mask p = on_thread t (λ th. record th { signal_mask = mask }) p

-- The semaphore is a local variable that nobody raises.
abbrev pub local_sem : Sem ProcessInfo
local_sem = record { value = λ p. 0; put = λ v p. p }

-- The status, EINTR in any case but one; the mask is the old one again.
unfoldable pub sys_sigsuspend :
    ℕ → User Sigset → ProcessInfo → List (Turn ProcessInfo) → Outcome ProcessInfo ApiStatus
unfolding interruptible_down
sys_sigsuspend t sigmask p ts =
    if not sigmask.usable
    then returned efault p ts
    else let before = (p.thread t).signal_mask in
      and_then (interruptible_down local_sem (set_mask t (maskable sigmask.value) p) ts)
        λ r p' ts'. returned eintr (set_mask t before p') ts'

-- Of the pending signals those of the process count, not those of the thread.
unfoldable pub sys_sigpending : (usable : Bool) → ℕ → ProcessInfo → ApiStatus × Option Sigset
sys_sigpending usable t p =
    if not usable
    then (efault, none)
    else (ok, some (λ s. (p.thread t).signal_mask s && p.signal_pending s))
