-- ===== src/Kernel/Tty/Input.antt =====
-- The line discipline: what the driver of a terminal puts in.
use posnk.Base.{
  ℕ, zero, suc, ◌%◌, ◌^◌, Bool, not, ◌&&◌, ◌||◌, ◌==◌, if◌then◌else◌, List, [], ◌∷◌, sub32, get_or,
  length,
}
use posnk.Kernel.Pipe.{pipe_is_full}
use posnk.Kernel.Tty.{
  Tty, Termios, write_out, signal_pgroup, has_flag, is_cc, happens, tty_queue_input_str,
  tty_queue_input_char, tty_buf_line_char, tty_flush_line_buffer, tty_output_char,
}
use posnk.Kernel.Tty.Flag
use posnk.Kernel.Tty.Cc

-- One character is wiped out on the screen.
abbrev pub rub_out : Tty → Tty
rub_out tty = happens (write_out 8) (happens (write_out 32) (happens (write_out 8) tty))

unfoldable pub rub_out_line : ℕ → Tty → Tty
rub_out_line zero tty = tty
rub_out_line (suc n) tty = rub_out_line n (rub_out tty)

unfoldable pub echo_char : ℕ → Tty → Tty
unfolding rub_out_line tty_output_char
echo_char c tty =
    let t = tty.termios in
    if is_cc t Cc.verase c && has_flag t.c_lflag Flag.echoe
    then (if tty.line_buffer_pos == 0 then tty else rub_out tty)
    else if is_cc t Cc.vkill c && has_flag t.c_lflag Flag.echok
    then rub_out_line tty.line_buffer_pos tty
    else if has_flag t.c_lflag Flag.echo || (c == 10 && has_flag t.c_lflag Flag.echonl)
    then tty_output_char c tty
    else tty

-- The character without its high bit, if ISTRIP says so.
abbrev pub stripped : Termios → ℕ → ℕ
stripped t c = if has_flag t.c_iflag Flag.istrip then c % 2 ^ 7 else c

-- Carriage returns and newlines translated.
abbrev pub translated : Termios → ℕ → ℕ
translated t c =
    if has_flag t.c_iflag Flag.inlcr && c == 10
    then 13
    else if has_flag t.c_iflag Flag.icrnl && c == 13
    then 10
    else c

-- What a character does to the line.
unfoldable pub control_char : ℕ → Tty → Tty
control_char c tty =
    let t = tty.termios in
    if c == 10 || is_cc t Cc.veol c
    then tty_flush_line_buffer (tty_buf_line_char c tty)
    else if is_cc t Cc.verase c
    then (if tty.line_buffer_pos == 0
        then tty
        else record tty { line_buffer_pos = sub32 tty.line_buffer_pos 1 })
    else if is_cc t Cc.vkill c
    then record tty { line_buffer_pos = 0 }
    else if has_flag t.c_lflag Flag.isig
    then (if is_cc t Cc.vquit c
        then happens (signal_pgroup tty.fg_pgid 3) tty
        else if is_cc t Cc.vintr c
        then happens (signal_pgroup tty.fg_pgid 2) tty
        else if is_cc t Cc.vsusp c
        then happens (signal_pgroup tty.fg_pgid 24) tty
        else tty_buf_line_char c tty)
    else tty_buf_line_char c tty

-- The byte 255 is escaped if parity errors are marked.
abbrev pub marked : ℕ → Tty → Tty
marked c tty =
    if not (has_flag tty.termios.c_iflag Flag.istrip)
      && has_flag tty.termios.c_iflag Flag.parmrk
      && c == 255
    then tty_queue_input_char 255 (tty_queue_input_char 255 tty)
    else tty

unfoldable pub canon_input_char : ℕ → Tty → Tty
canon_input_char c tty =
    let tty' = marked c tty in
    let c' = translated tty.termios (stripped tty.termios c) in
    if has_flag tty.termios.c_iflag Flag.igncr && c' == 13
    then tty'
    else control_char c' (echo_char c' tty')

unfoldable pub tty_input_char : ℕ → Tty → Tty
tty_input_char c tty =
    if has_flag tty.termios.c_lflag Flag.icanon
    then canon_input_char c tty
    else tty_queue_input_char c
        (if has_flag tty.termios.c_lflag Flag.echo then happens (write_out c) tty else tty)

-- The characters of a string one by one.
unfoldable pub input_chars : List ℕ → Tty → Tty
input_chars [] tty = tty
input_chars (c ∷ cs) tty = input_chars cs (tty_input_char c tty)

-- The string is given by its characters before the NUL.
unfoldable pub tty_input_str : List ℕ → Tty → Tty
unfolding input_chars
tty_input_str s tty =
    if has_flag tty.termios.c_lflag Flag.icanon
    then input_chars s tty
    else tty_queue_input_str (λ i. get_or s i 0) (length s) tty

unfoldable pub tty_input_queue_full : Tty → Bool
unfolding pipe_is_full
tty_input_queue_full tty = pipe_is_full tty.pipe_in

unfoldable pub tty_input_break : Tty → Tty
tty_input_break tty =
    let f = tty.termios.c_iflag in
    if has_flag f Flag.ignbrk || has_flag f Flag.brkint
    then tty
    else if has_flag f Flag.parmrk
    then tty_queue_input_char 0 (tty_queue_input_char 0 (tty_queue_input_char 255 tty))
    else tty_queue_input_char 0 tty

unfoldable pub tty_input_error : ℕ → Tty → Tty
tty_input_error c tty =
    let f = tty.termios.c_iflag in
    if has_flag f Flag.ignpar
    then tty_input_char c tty
    else if has_flag f Flag.parmrk
    then tty_queue_input_char 0 (tty_queue_input_char 255 tty)
    else tty_queue_input_char 0 tty
