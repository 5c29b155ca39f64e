-- ===== src/Kernel/Tty.antt =====
-- kernel/tty.c: terminals. A `char` is a byte; it is signed, as on i386, so only the bytes below 128
-- can equal a control character of `termios`. What a terminal does to the outside is an event.
pub mod Flag
pub mod Cc
pub mod Input
pub mod Device
pub mod Editor
pub mod Line
pub mod Cooked
use posnk.Base.{
  ℕ, zero, suc, ◌+◌, ◌-◌, ◌%◌, ◌^◌, Bool, true, false, not, ◌&&◌, ◌||◌, ◌==◌, ltb, if◌then◌else◌,
  List, [], ◌∷◌, ◌++◌, map, bit_and, add32,
}
use posnk.Base.Memory.{Memory}
use posnk.Kernel.Outcome.{Outcome, returned, asleep, panic, out_of_fuel}
use posnk.Kernel.Pipe.{Pipe, Status, pipe_write}
use posnk.Kernel.Tty.Flag
use posnk.Kernel.Tty.Cc

-- `termios_t`.
pub record Termios : Type 0 where
  pub c_iflag : ℕ
  pub c_oflag : ℕ
  pub c_lflag : ℕ
  pub c_cflag : ℕ
  pub c_cc : ℕ → ℕ
  pub c_ispeed : ℕ
  pub c_ospeed : ℕ

-- Calls of the driver, signals to a process group, and the notification of those that poll a stream.
pub data Event : Type 0 where
  write_out : ℕ → Event
  opened closed termios_changed : Event
  signal_pgroup : (pgid sig : ℕ) → Event
  notify_poll : ℕ → Event

-- `tty_info_t`; of the open handles their stream pointers, and what has happened, oldest first.
pub record Tty : Type 0 where
  pub device : ℕ
  pub fg_pgid : ℕ
  pub ct_pid : ℕ
  pub termios : Termios
  pub ws_col : ℕ
  pub ws_row : ℕ
  pub ref_count : ℕ
  pub line_buffer : Memory
  pub line_buffer_pos : ℕ
  pub fds : List ℕ
  pub pipe_in : Pipe
  pub events : List Event

-- CONFIG_TTY_BUFFER.
abbrev pub tty_buffer_size : ℕ
tty_buffer_size = 4096

abbrev pub has_flag : ℕ → ℕ → Bool
has_flag flags f = not (bit_and flags f == 0)

-- `c == tty->termios.c_cc[i]`.
abbrev pub is_cc : Termios → ℕ → ℕ → Bool
is_cc t i c = ltb c 128 && c == t.c_cc i

abbrev pub happens : Event → Tty → Tty
happens e tty = record tty { events = tty.events ++ (e ∷ []) }

unfoldable pub tty_reset_termios : Tty → Tty
tty_reset_termios tty = record tty {
  termios = record {
    c_iflag = Flag.icrnl + Flag.ixon + Flag.brkint;
    c_oflag = Flag.opost + Flag.onlcr;
    c_lflag = Flag.echo + Flag.echoe + Flag.echok + Flag.isig + Flag.icanon;
    c_cflag = 3 + 8;
    c_cc = λ i.
        if i == Cc.vintr
        then 3
        else if i == Cc.vquit
        then 28
        else if i == Cc.verase
        then 8
        else if i == Cc.veof
        then 4
        else if i == Cc.vsusp
        then 26
        else if i == Cc.vkill
        then 1
        else if i == Cc.veol
        then 2
        else tty.termios.c_cc i;
    c_ispeed = 13;
    c_ospeed = 13;
  };
  ws_col = 80;
  ws_row = 25;
}

unfoldable pub tty_notify_poll : Tty → Tty
tty_notify_poll tty = record tty { events = tty.events ++ map notify_poll tty.fds }

-- The pipe after a write without blocking, whose status is not looked at. Three rounds of its loop
-- are enough.
unfoldable pub pipe_after : Outcome Pipe (Status × ℕ) → Pipe → Pipe
pipe_after (returned r p ts) old = p
pipe_after (asleep p) old = p
pipe_after panic old = old
pipe_after out_of_fuel old = old

unfoldable pub queue : Memory → ℕ → Tty → Tty
unfolding pipe_after
queue from count tty = record tty {
  pipe_in = pipe_after (pipe_write from count true 3 tty.pipe_in []) tty.pipe_in;
}

-- The string with its length.
unfoldable pub tty_queue_input_str : Memory → ℕ → Tty → Tty
unfolding queue tty_notify_poll
tty_queue_input_str c len tty = tty_notify_poll (queue c len tty)

unfoldable pub tty_queue_input_char : ℕ → Tty → Tty
unfolding queue tty_notify_poll
tty_queue_input_char c tty = tty_notify_poll (queue (λ _. c) 1 tty)

-- The bytes that do not fit into the pipe are lost.
unfoldable pub tty_flush_line_buffer : Tty → Tty
tty_flush_line_buffer tty = record (queue tty.line_buffer tty.line_buffer_pos tty) {
  line_buffer_pos = 0;
}

unfoldable pub tty_buf_line_char : ℕ → Tty → Tty
tty_buf_line_char c tty =
    let tty' = if tty.line_buffer_pos == tty_buffer_size then tty_flush_line_buffer tty else tty in
    record tty' {
      line_buffer = λ i. if i == tty'.line_buffer_pos then c else tty'.line_buffer i;
      line_buffer_pos = add32 tty'.line_buffer_pos 1;
    }

unfoldable pub tty_output_char : ℕ → Tty → Tty
tty_output_char c tty =
    let o = tty.termios.c_oflag in
    if has_flag o Flag.opost
    then (if has_flag o Flag.onlcr && c == 10
        then happens (write_out c) (happens (write_out 13) tty)
        else happens (write_out (if has_flag o Flag.ocrnl && c == 13 then 10 else c)) tty)
    else happens (write_out c) tty
