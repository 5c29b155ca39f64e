-- ===== src/Kernel/Tty/Editor.antt =====
-- Canonical input is a line editor: what the reader gets are the lines as they were edited.
use posnk.Base.{ℕ, ◌+◌, ◌≤◌, ◌≡◌, true, false, ◌&&◌, ◌||◌, ◌==◌, if◌then◌else◌, List, [], ◌∷◌, ◌++◌}
use posnk.Base.Memory.{slice}
use posnk.Kernel.Pipe.Fifo.{IsValid, contents}
use posnk.Kernel.Tty.{Tty, Termios, has_flag, is_cc}
use posnk.Kernel.Tty.Input.{stripped, translated}
use posnk.Kernel.Tty.Flag
use posnk.Kernel.Tty.Cc

-- The line that is being typed, and what has been handed to the reader.
pub record Line : Type 0 where
  pub typed : List ℕ
  pub delivered : List ℕ

abbrev pub drop_last : List ℕ → List ℕ
drop_last [] = []
drop_last (x ∷ []) = []
drop_last (x ∷ y ∷ xs) = x ∷ drop_last (y ∷ xs)

-- A character, as the editor sees it after the translations.
abbrev pub edit_char : Termios → ℕ → Line → Line
edit_char t c l =
    if c == 10 || is_cc t Cc.veol c
    then record { typed = []; delivered = l.delivered ++ (l.typed ++ (c ∷ [])) }
    else if is_cc t Cc.verase c
    then record l { typed = drop_last l.typed }
    else if is_cc t Cc.vkill c
    then record l { typed = [] }
    else if has_flag t.c_lflag Flag.isig
        && (is_cc t Cc.vquit c || is_cc t Cc.vintr c || is_cc t Cc.vsusp c)
    then l
    else record l { typed = l.typed ++ (c ∷ []) }

-- A character as it is typed.
abbrev pub edit : Termios → ℕ → Line → Line
edit t c l =
    let c' = translated t (stripped t c) in
    if has_flag t.c_iflag Flag.igncr && c' == 13 then l else edit_char t c' l

abbrev pub edits : Termios → List ℕ → Line → Line
edits t [] l = l
edits t (c ∷ cs) l = edits t cs (edit t c l)

-- The line that a terminal stands for.
abbrev pub line_of : Tty → Line
line_of tty = record {
  typed = slice tty.line_buffer 0 tty.line_buffer_pos;
  delivered = contents tty.pipe_in;
}

-- The bytes that the pipe would hold after the line that is being typed.
abbrev pub used : Tty → ℕ
used tty = tty.pipe_in.write_ptr + tty.line_buffer_pos

-- The terminal `u` stands for the line `l`; it came from `tty`, and one byte was added at most.
pub record Edited (tty u : Tty) (l : Line) : Type 0 where
  pub line : line_of u ≡ l
  pub valid : IsValid u.pipe_in
  pub more : used u ≤ used tty + 1
  pub settings : u.termios ≡ tty.termios

-- In canonical mode, without the marks of parity errors.
pub record IsCooked (t : Termios) : Type 0 where
  pub canonical : has_flag t.c_lflag Flag.icanon ≡ true
  pub unmarked : has_flag t.c_iflag Flag.parmrk ≡ false
