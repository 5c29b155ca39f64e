-- ===== src/Kernel/Tty/Cooked.antt =====
-- Canonical input edits the line that is being typed, and hands over the lines that are ended.
use posnk.Base.{
  ℕ, zero, suc, ◌+◌, ◌≤◌, ◌≡◌, refl, ap₂, ◌∙◌, Bool, true, false, ◌&&◌, ◌==◌, if◌then◌else◌, List,
  [], ◌∷◌, length, arith, Bool-cases, inl, inr,
}
use posnk.Kernel.Pipe.Fifo.{IsValid}
use posnk.Kernel.Tty.{Tty, tty_buffer_size, has_flag, tty_output_char}
use posnk.Kernel.Tty.Input.{
  tty_input_str, echo_char, rub_out, rub_out_line, stripped, translated, marked, control_char,
  canon_input_char, tty_input_char, input_chars,
}
use posnk.Kernel.Tty.Flag
use posnk.Kernel.Tty.Editor.{edit_char, edit, edits, line_of, used, Edited, IsCooked}
use posnk.Kernel.Tty.Line.{control_char-edit}

-- Only the screen changes.
abbrev Shown : Tty → Tty → Type 0
Shown tty u = u ≡ record tty { events = u.events }

rub_out_line-Shown : (n : ℕ) (tty : Tty) → Shown tty (rub_out_line n tty)
unfolding rub_out_line
rub_out_line-Shown zero tty = refl
rub_out_line-Shown (suc n) tty = rub_out_line-Shown n (rub_out tty) ∙ refl

tty_output_char-Shown : (c : ℕ) (tty : Tty) → Shown tty (tty_output_char c tty)
unfolding tty_output_char
tty_output_char-Shown c tty = ground arith

Shown-if : (b : Bool) (tty u w : Tty) → Shown tty u → Shown tty w → Shown tty (if b then u else w)
Shown-if true tty u w su sw = su
Shown-if false tty u w su sw = sw

echo_char-Shown : (c : ℕ) (tty : Tty) → Shown tty (echo_char c tty)
unfolding echo_char
echo_char-Shown c tty = Shown-if _ tty _ _ (Shown-if _ tty _ _ refl refl) (
    Shown-if _ tty _ _ (rub_out_line-Shown tty.line_buffer_pos tty)
      (Shown-if _ tty _ _ (tty_output_char-Shown c tty) refl))

module _ (tty : Tty) (k : IsCooked tty.termios) (v : IsValid tty.pipe_in) where
  marked-none : (c : ℕ) → marked c tty ≡ tty
  marked-none c = elim (Bool-cases (has_flag tty.termios.c_iflag Flag.istrip)) [
    | inl strips ↦ rw strips
    | inr plain ↦ rw (plain, k.unmarked)
  ]

  -- What the echo writes does not matter to the line.
  echoed :
      (c : ℕ)
      → used tty + 1 ≤ tty_buffer_size
      → Edited tty (control_char c (echo_char c tty)) (edit_char tty.termios c (line_of tty))
  echoed c fits =
      let e =
        control_char-edit (record tty { events = (echo_char c tty).events }) v (omega (arith, fits))
          c in
      rw (echo_char-Shown c tty)
        (record { line = e.line; valid = e.valid; more = e.more; settings = e.settings })

  tty_input_char-edit :
      (c : ℕ)
      → used tty + 1 ≤ tty_buffer_size
      → Edited tty (tty_input_char c tty) (edit tty.termios c (line_of tty))
  unfolding tty_input_char canon_input_char
  tty_input_char-edit c fits =
      let t = tty.termios in
      rw (k.canonical, marked-none c)
        (elim (Bool-cases (has_flag t.c_iflag Flag.igncr && translated t (stripped t c) == 13)) [
          | inl ignored ↦
              rw ignored
                (record { line = refl; valid = v; more = omega (arith, fits); settings = refl })
          | inr goes_in ↦ rw goes_in (echoed (translated t (stripped t c)) fits)
        ])

tty_input_chars-edits :
    (cs : List ℕ) (tty : Tty)
    → IsCooked tty.termios
    → IsValid tty.pipe_in
    → used tty + length cs ≤ tty_buffer_size
    → (line_of (input_chars cs tty) ≡ edits tty.termios cs (line_of tty))
      × IsValid (input_chars cs tty).pipe_in
unfolding input_chars
tty_input_chars-edits [] tty k v fits = (refl, v)
tty_input_chars-edits (c ∷ cs) tty k v fits =
    let s = tty_input_char-edit tty k v c (omega (arith, fits)) in
    let (run, v') =
      tty_input_chars-edits cs (tty_input_char c tty) (rw s.settings k) s.valid
        (omega (arith, fits, s.more)) in
    (run ∙ ap₂ (λ t l. edits t cs l) s.settings s.line, v')

-- In canonical mode without PARMRK, a string whose characters fit into the line buffer and the pipe
-- behind what they hold edits the line: the reader gets the lines as they were when their newline or
-- VEOL was typed, the bytes after the last erased or killed ones remain as the line that is being
-- typed, and no byte is lost. The pipe stays valid.
pub tty_input_str_lem :
    (cs : List ℕ) (tty : Tty)
    → IsCooked tty.termios
    → IsValid tty.pipe_in
    → used tty + length cs ≤ tty_buffer_size
    → (line_of (tty_input_str cs tty) ≡ edits tty.termios cs (line_of tty))
      × IsValid (tty_input_str cs tty).pipe_in
unfolding tty_input_str
tty_input_str_lem cs tty k v fits = rw k.canonical (tty_input_chars-edits cs tty k v fits)
