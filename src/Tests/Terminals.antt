-- ===== src/Tests/Terminals.antt =====
-- Terminals.
use posnk.Base.{ℕ, ◌≡◌, refl, ◌==◌, if◌then◌else◌, List, [], ◌∷◌, arith}
use posnk.Kernel.Pipe.{Pipe}
use posnk.Kernel.Pipe.Fifo.{IsValid}
use posnk.Base.Memory.{slice}
use posnk.Kernel.Tty.{Tty}
use posnk.Kernel.Tty.Input.{tty_input_str}
use posnk.Kernel.Tty.Editor.{edits, line_of}
use posnk.Kernel.Tty.Cooked.{tty_input_str_lem}

abbrev pipe : Pipe
pipe = record {
  read_usage_count = 1;
  write_usage_count = 1;
  buffer = λ i. 0;
  write_ptr = 0;
  read_ptr = 0;
  write_lock = 0;
  read_lock = 0;
}

-- As tty_register_driver sets it up, with one handle.
abbrev terminal : Tty
terminal = record {
  device = 1024;
  fg_pgid = 7;
  ct_pid = 7;
  termios = record {
    c_iflag = 2051;
    c_oflag = 5;
    c_lflag = 87;
    c_cflag = 11;
    c_cc = λ i.
        if i == 2
        then 8
        else if i == 4
        then 1
        else if i == 1
        then 2
        else if i == 3
        then 3
        else if i == 6
        then 28
        else if i == 9
        then 26
        else 0;
    c_ispeed = 13;
    c_ospeed = 13;
  };
  ws_col = 80;
  ws_row = 25;
  ref_count = 1;
  line_buffer = λ i. 0;
  line_buffer_pos = 0;
  fds = 5 ∷ [];
  pipe_in = pipe;
  events = [];
}

-- The second of three characters is erased, and the carriage return ends the line.
abbrev keys : List ℕ
keys = 97 ∷ 98 ∷ 8 ∷ 99 ∷ 13 ∷ 100 ∷ []

edits_typed_line :
    edits terminal.termios keys (line_of terminal)
    ≡ record { typed = 100 ∷ []; delivered = 97 ∷ 99 ∷ 10 ∷ [] }
unfolding slice
edits_typed_line = refl

tty_input_str_lem_example :
    (line_of (tty_input_str keys terminal) ≡ edits terminal.termios keys (line_of terminal))
    × IsValid (tty_input_str keys terminal).pipe_in
tty_input_str_lem_example =
    tty_input_str_lem keys terminal (record { canonical = refl; unmarked = refl }) (omega arith)
      (omega arith)
