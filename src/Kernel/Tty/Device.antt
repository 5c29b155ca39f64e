-- ===== src/Kernel/Tty/Device.antt =====
-- The character device of a terminal: open, close, read, write, poll and ioctl. The terminal is the
-- one that tty_get returns; the caller's process is an argument.
use posnk.Base.{
  ℕ, ◌+◌, ◌*◌, ◌/◌, ◌%◌, ◌^◌, Bool, not, ◌&&◌, ◌||◌, ◌==◌, leb, if◌then◌else◌, Option, none, some,
  List, [], ◌∷◌, ◌++◌, bit_and, add32, sub32,
}
use posnk.Base.Memory.{Memory}
use posnk.Kernel.Outcome.{Turn, Outcome}
use posnk.Kernel.Pipe.{
  Pipe, ReadResult, pipe_read, pipe_poll, pipe_open_read, pipe_open_write, pollin,
}
use posnk.Kernel.Tty.{
  Tty, Termios, opened, closed, termios_changed, signal_pgroup, has_flag, happens, tty_output_char,
  tty_reset_termios,
}

-- The fields of `process_info_t` that job control uses; `ctty` is 0 if there is no terminal.
pub record Session : Type 0 where
  pub pid : ℕ
  pub sid : ℕ
  pub pgid : ℕ
  pub ctty : ℕ

-- `tty_list` and `tty_count`.
pub record Ttys : Type 0 where
  pub tty_list : ℕ → ℕ → Tty
  pub tty_count : ℕ → ℕ

abbrev pub major : ℕ → ℕ
major d = d / 2 ^ 8 % 2 ^ 8

abbrev pub minor : ℕ → ℕ
minor d = d % 2 ^ 8

abbrev pub makedev : ℕ → ℕ → ℕ
makedev m n = (m % 2 ^ 8) * 2 ^ 8 + n % 2 ^ 8

unfoldable pub tty_get : ℕ → Ttys → Option Tty
tty_get device t =
    if leb (t.tty_count (major device)) (minor device)
    then none
    else some (t.tty_list (major device) (minor device))

pub data TtyStatus : Type 0 where
  ok enodev enomem efault : TtyStatus

-- O_NOCTTY.
abbrev pub o_noctty : ℕ
o_noctty = 0x8000

-- The terminal becomes the one that controls the session of the caller.
abbrev take_ctty : ℕ → Session → Tty → Session × Tty
take_ctty device s tty =
    (record s { ctty = device }, record tty { ct_pid = s.pid; fg_pgid = s.pgid })

unfoldable pub tty_open :
    (device fd options : ℕ)
    → (allocated : Bool) → Session
    → Option Tty
    → TtyStatus × Session × Option Tty
tty_open device fd options allocated s none = (enodev, s, none)
tty_open device fd options allocated s (some tty) =
    if not allocated
    then (enomem, s, some tty)
    else let tty' = record tty { ref_count = add32 tty.ref_count 1; fds = tty.fds ++ (fd ∷ []) } in
      let (s'', tty'') =
        if not (has_flag options o_noctty) && s.pid == s.sid && s.ctty == 0
        then take_ctty device s tty'
        else (s, tty') in
      (ok, s'', some (happens opened tty''))

unfoldable pub tty_dup :
    (device fd : ℕ) → (allocated : Bool) → Session → Option Tty → TtyStatus × Session × Option Tty
unfolding tty_open
tty_dup device fd allocated s tty = tty_open device fd o_noctty allocated s tty

-- Every handle with this stream pointer goes.
unfoldable pub drop_fd : ℕ → List ℕ → List ℕ
drop_fd fd [] = []
drop_fd fd (x ∷ xs) = let rest = drop_fd fd xs in if x == fd then rest else x ∷ rest

unfoldable pub tty_close : (device fd : ℕ) → Session → Tty → Session × Tty
unfolding drop_fd
tty_close device fd s tty =
    let tty' = record tty { ref_count = sub32 tty.ref_count 1; fds = drop_fd fd tty.fds } in
    if tty'.ref_count == 0
    then (if device == s.ctty then record s { ctty = 0 } else s, happens closed tty')
    else (s, tty')

-- The characters of the buffer one by one; the size written is always `count`.
unfoldable pub output_chars : List ℕ → Tty → Tty
output_chars [] tty = tty
output_chars (c ∷ cs) tty = output_chars cs (tty_output_char c tty)

unfoldable pub tty_read :
    Memory → ℕ → (non_block allocated : Bool) → ℕ → Tty → List (Turn Pipe) → Outcome Pipe ReadResult
unfolding pipe_read
tty_read into count non_block allocated fuel tty ts =
    pipe_read into count non_block allocated fuel tty.pipe_in ts

unfoldable pub tty_poll : ℕ → Tty → ℕ
unfolding pipe_poll
tty_poll events tty = bit_and (pipe_poll tty.pipe_in events) pollin

-- The functions of `tty_ioctl`, with what they take from user memory (`none` is a failed copy) and
-- whether a copy to it succeeds.
pub data Ioctl : Type 0 where
  tcgets tiocgpgrp tiocgwinsz : (copied : Bool) → Ioctl
  tcsets : Option Termios → Ioctl
  tiocspgrp : Option ℕ → Ioctl
  tiocswinsz : Option (ℕ × ℕ) → Ioctl
  tiocsctty tiocnotty other : Ioctl

abbrev copy_out : Bool → Session → Tty → TtyStatus × Session × Tty
copy_out copied s tty = (if copied then ok else efault, s, tty)

unfoldable pub ioctl_on : (device : ℕ) → Ioctl → Session → Tty → TtyStatus × Session × Tty
ioctl_on device (tcgets copied) s tty = copy_out copied s tty
ioctl_on device (tiocgpgrp copied) s tty = copy_out copied s tty
ioctl_on device (tiocgwinsz copied) s tty = copy_out copied s tty
ioctl_on device (tcsets from) s tty = elim from [
  | none ↦ (efault, s, tty)
  | some t ↦ (ok, s, happens termios_changed (record tty { termios = t }))
]
ioctl_on device (tiocspgrp from) s tty = elim from [
  | none ↦ (efault, s, tty)
  | some p ↦ (ok, s, record tty { fg_pgid = p })
]
ioctl_on device (tiocswinsz from) s tty = elim from [
  | none ↦ (efault, s, tty)
  | some (col, row) ↦ (ok, s, record tty { ws_col = col; ws_row = row })
]
ioctl_on device tiocsctty s tty =
    if s.pid == s.sid && (s.ctty == device || s.ctty == 0)
    then (let (s', tty') = take_ctty device s tty in (ok, s', tty'))
    else (ok, s, tty)
ioctl_on device tiocnotty s tty =
    if not (s.ctty == device)
    then (ok, s, tty)
    else let s' = record s { ctty = 0 } in
      if s.pid == s.sid
      then (
        ok,
        s',
        happens (signal_pgroup tty.fg_pgid 1) (happens (signal_pgroup tty.fg_pgid 19) tty),
      )
      else (ok, s', tty)
ioctl_on device other s tty = (ok, s, tty)

-- Without a terminal the call fails.
unfoldable pub tty_ioctl :
    (device : ℕ) → Ioctl → Session → Option Tty → TtyStatus × Session × Option Tty
unfolding ioctl_on
tty_ioctl device func s none = (enodev, s, none)
tty_ioctl device func s (some tty) =
    let (status, s', tty') = ioctl_on device func s tty in (status, s', some tty')

-- A minor device as tty_register_driver sets it up: its pipe has a reader and a writer.
unfoldable pub fresh_tty : (device : ℕ) → Pipe → Tty → Tty
unfolding tty_reset_termios pipe_open_read pipe_open_write
fresh_tty device pipe blank = tty_reset_termios (record blank {
  pipe_in = pipe_open_write (pipe_open_read pipe);
  device = device;
  line_buffer_pos = 0;
  ref_count = 0;
  fg_pgid = 0;
  ct_pid = 0;
  fds = [];
})
