-- ===== src/Kernel/Signal/Calls.antt =====
-- What the system calls for signals guarantee.
use posnk.Base.{
  ℕ, ◌==◌, if◌then◌else◌, ◌≡◌, refl, Bool, true, not, ◌&&◌, ◌||◌, Option, none, some, List, [], ◌∷◌,
  arith, Bool-cases, inl, inr, ==_refl,
}
use posnk.Kernel.Outcome.{Turn, Outcome, returned, asleep, and_then}
use posnk.Kernel.Scheduler.{WaitResult}
use posnk.Kernel.Synch.Wait.{wait_for, interruptible_down_lem}
use posnk.Kernel.Signal.{Sigset, Sigaction, Thread, ProcessInfo}
use posnk.Kernel.Signal.Api.{
  ok, eintr, may_set, User, refused, copied, masked, How, sig_block, sig_setmask, sig_unblock,
  unknown, sys_sigaction, sys_sigprocmask, local_sem, set_mask, maskable, sys_sigsuspend,
}
use posnk.Kernel.Signal.Number

-- A mask that has neither SIGKILL nor SIGSTOP.
abbrev pub lets_kill : Sigset → Bool
lets_kill mask = not (mask Number.sigkill) && not (mask Number.sigstop)

maskable-lets_kill : (set : Sigset) → lets_kill (maskable set) ≡ true
maskable-lets_kill set = ground arith

-- The last branch of sigprocmask.
new_mask-lets_kill :
    (how : How) (set : Sigset) (old : Option Sigset) (t : Thread)
    → lets_kill t.signal_mask ≡ true
    → lets_kill (masked how set old t).2.signal_mask ≡ true
new_mask-lets_kill sig_block set old t e = maskable-lets_kill (λ s. t.signal_mask s || set s)
new_mask-lets_kill sig_setmask set old t e = maskable-lets_kill set
new_mask-lets_kill sig_unblock set old t e =
    maskable-lets_kill (λ s. t.signal_mask s && not (set s))
new_mask-lets_kill unknown set old t e = e

-- Whatever sigprocmask is asked to do, and whether it succeeds or fails, a thread that masks neither
-- SIGKILL nor SIGSTOP still masks neither.
pub sys_sigprocmask-lets_kill :
    (how : How) (set : Option (User Sigset)) (oset : Option Bool) (t : Thread)
    → lets_kill t.signal_mask ≡ true
    → lets_kill (sys_sigprocmask how set oset t).2.signal_mask ≡ true
unfolding sys_sigprocmask
sys_sigprocmask-lets_kill how none oset t e = elim (Bool-cases (refused oset)) [
  | inl r ↦ rw r e
  | inr r ↦ rw r e
]
sys_sigprocmask-lets_kill how (some s) oset t e = elim (Bool-cases (refused oset)) [
  | inl r ↦ rw r e
  | inr r ↦ elim (Bool-cases s.usable) [
    | inr u ↦ rw (r, u) e
    | inl u ↦ rw (r, u) (new_mask-lets_kill how s.value (copied oset t.signal_mask) t e)
  ]
]

-- A disposition that sigaction has set is the one that the next sigaction reports; SIGKILL and SIGSTOP
-- are left out, and the pointers have to be usable.
pub sys_sigaction_twice :
    (sig : ℕ) (act : Sigaction) (p : ProcessInfo)
    → may_set sig ≡ true
    → sys_sigaction sig none
        (some true)
        (sys_sigaction sig (some (record { usable = true; value = act })) none p).2
      ≡ (ok, some act, (sys_sigaction sig (some (record { usable = true; value = act })) none p).2)
unfolding sys_sigaction
sys_sigaction_twice sig act p may = rw (may, ==_refl sig)

-- The process sleeps through the turns without a signal. A turn with one ends the sleep.
unfoldable pub until_signal : ProcessInfo → List (Turn ProcessInfo) → Outcome ProcessInfo Unit
until_signal p [] = asleep p
until_signal p (turn ∷ ts) =
    let rest = until_signal (turn.others p) ts in
    if turn.signal then returned tt (turn.others p) ts else rest

-- The process with another mask for the thread.
abbrev pub masking : ℕ → Sigset → ProcessInfo → ProcessInfo
masking t mask p = record p {
  thread = λ u. if u == t then record (p.thread u) { signal_mask = mask } else p.thread u;
}

-- A wait on the local semaphore, and the mask that is put back.
suspended :
    (t : ℕ) (before : Sigset) (p : ProcessInfo) (ts : List (Turn ProcessInfo))
    → and_then
        (wait_for local_sem p ts)
        (λ (r : WaitResult) p' ts'. returned eintr (set_mask t before p') ts')
      ≡ and_then (until_signal p ts) (λ (r : Unit) q ts'. returned eintr (masking t before q) ts')
unfolding until_signal
suspended t before p [] = refl
suspended t before p (turn ∷ ts) = elim (Bool-cases turn.signal) [
  | inl e ↦ rw e refl
  | inr e ↦ rw e (suspended t before (turn.others p) ts)
]

-- With a mask that can be read, sigsuspend sleeps with that mask, but for SIGKILL and SIGSTOP, until a
-- turn at which a signal comes, and for ever if none does. Then it gives EINTR, and the thread has the
-- mask that it had before; what the other tasks have done to the process meanwhile stays.
pub sys_sigsuspend_lem :
    (t : ℕ) (set : Sigset) (p : ProcessInfo) (ts : List (Turn ProcessInfo))
    → let mask : Sigset = λ sig. (set sig && not (sig == 9)) && not (sig == 23) in
      sys_sigsuspend t (record { usable = true; value = set }) p ts
      ≡ and_then
          (until_signal (masking t mask p) ts)
          (λ (r : Unit) q ts'. returned eintr (masking t (p.thread t).signal_mask q) ts')
unfolding sys_sigsuspend
sys_sigsuspend_lem t set p ts =
    rw (interruptible_down_lem local_sem (λ s. refl) (set_mask t (maskable set) p) ts)
      (suspended t (p.thread t).signal_mask (set_mask t (maskable set) p) ts)
