-- ===== src/Kernel/Tty/Line.antt =====
-- What control_char does to the line.
use posnk.Base.{
  ℕ, zero, suc, ◌+◌, ◌-◌, ◌≤◌, ◌<◌, ◌≡◌, refl, sym, ap, ap₂, ◌∙◌, true, false, ◌&&◌, ◌||◌, ◌==◌,
  if◌then◌else◌, List, [], ◌∷◌, ◌++◌, add32, sub32, arith, Bool-cases, inl, inr, ==→ne, ==→eq,
}
use posnk.Base.Memory.{Memory, slice, slice-eq, slice-add, slice-zero}
use posnk.Kernel.Pipe.{write_turn, pipe_buffer_size}
use posnk.Kernel.Pipe.Fifo.{
  IsValid, contents, write_turn-contents, write_turn-IsValid, pipe_write-turn,
}
use posnk.Kernel.Tty.{
  Tty, tty_buffer_size, has_flag, is_cc, happens, queue, pipe_after, tty_buf_line_char,
  tty_flush_line_buffer, happens, Event, signal_pgroup,
}
use posnk.Kernel.Tty.Input.{control_char}
use posnk.Kernel.Tty.Flag
use posnk.Kernel.Tty.Cc
use posnk.Kernel.Tty.Editor.{drop_last, edit_char, line_of, used, Edited}

queue-turn :
    (from : Memory) (count : ℕ) (tty : Tty)
    → IsValid tty.pipe_in
    → 0 < count
    → tty.pipe_in.write_ptr + count ≤ pipe_buffer_size
    → queue from count tty ≡ record tty { pipe_in = write_turn from 0 count tty.pipe_in }
unfolding queue pipe_after
queue-turn from count tty v pos fits =
    rw (pipe_write-turn from count tty.pipe_in v true 2 [] pos (omega arith))

-- The line buffer after a character has been put behind the line.
abbrev put_char : ℕ → Tty → Memory
put_char c tty = λ i. if i == tty.line_buffer_pos then c else tty.line_buffer i

put_char-slice :
    (c : ℕ) (tty : Tty)
    → slice (put_char c tty) 0 (tty.line_buffer_pos + 1)
      ≡ slice tty.line_buffer 0 tty.line_buffer_pos ++ (c ∷ [])
unfolding slice
put_char-slice c tty =
    slice-add (put_char c tty) 0 tty.line_buffer_pos 1
    ∙ ap₂ ◌++◌
        (slice-eq (put_char c tty) tty.line_buffer 0 0 tty.line_buffer_pos λ k lt. ground arith)
        (ap (λ x. x ∷ []) (ground arith))

drop_last-snoc : (xs : List ℕ) (x : ℕ) → drop_last (xs ++ (x ∷ [])) ≡ xs
drop_last-snoc [] x = refl
drop_last-snoc (y ∷ []) x = refl
drop_last-snoc (y ∷ z ∷ xs) x = ap (λ l. y ∷ l) (drop_last-snoc (z ∷ xs) x)

drop_last-slice : (f : Memory) (n : ℕ) → drop_last (slice f 0 n) ≡ slice f 0 (n - 1)
unfolding slice
drop_last-slice f zero = refl
drop_last-slice f (suc n) =
    let e : suc n ≡ n + 1 = omega arith in
    ap (λ k. drop_last (slice f 0 k)) e
    ∙ ap drop_last (slice-add f 0 n 1)
    ∙ drop_last-snoc (slice f 0 n) (f (0 + n))
    ∙ ap (slice f 0) (omega arith)

module _ (tty : Tty) (v : IsValid tty.pipe_in) (fits : used tty + 1 ≤ tty_buffer_size) where
  buf_char :
      (c : ℕ)
      → tty_buf_line_char c tty
        ≡ record tty { line_buffer = put_char c tty; line_buffer_pos = tty.line_buffer_pos + 1 }
  unfolding tty_buf_line_char
  buf_char c =
      let room : (tty.line_buffer_pos == tty_buffer_size) ≡ false = ground arith in
      let next : add32 tty.line_buffer_pos 1 ≡ tty.line_buffer_pos + 1 = omega arith in
      rw (room, next)

  -- A character that goes into the buffer.
  plain_char :
      (c : ℕ)
      → Edited tty
          (tty_buf_line_char c tty)
          (record (line_of tty) { typed = (line_of tty).typed ++ (c ∷ []) })
  plain_char c = rw (buf_char c) (record {
    line = ap (λ t. record { typed = t; delivered = contents tty.pipe_in }) (put_char-slice c tty);
    valid = v;
    more = omega (arith, fits);
    settings = refl;
  })

  erase_char :
      Edited tty
        (record tty { line_buffer_pos = tty.line_buffer_pos - 1 })
        (record (line_of tty) { typed = drop_last (line_of tty).typed })
  erase_char = record {
    line =
        ap (λ t. record { typed = t; delivered = contents tty.pipe_in })
          (sym (drop_last-slice tty.line_buffer tty.line_buffer_pos));
    valid = v;
    more = omega (arith, fits);
    settings = refl;
  }

  kill_line : Edited tty (record tty { line_buffer_pos = 0 }) (record (line_of tty) { typed = [] })
  kill_line = record {
    line =
        ap (λ t. record { typed = t; delivered = contents tty.pipe_in })
          (slice-zero tty.line_buffer 0);
    valid = v;
    more = omega (arith, fits);
    settings = refl;
  }

  written :
      (c : ℕ)
      → tty.line_buffer_pos + 1 ≤ pipe_buffer_size - tty.pipe_in.write_ptr
      → (write_turn (put_char c tty) 0 (tty.line_buffer_pos + 1) tty.pipe_in).write_ptr + 0
        ≤ used tty + 1
  unfolding write_turn
  written c room = omega (arith, v, fits)

  end_line :
      (c : ℕ)
      → Edited tty (tty_flush_line_buffer (tty_buf_line_char c tty)) (record {
        typed = [];
        delivered = (line_of tty).delivered ++ ((line_of tty).typed ++ (c ∷ []));
      })
  unfolding tty_flush_line_buffer
  end_line c =
      let n = tty.line_buffer_pos + 1 in
      let u = record tty { line_buffer = put_char c tty; line_buffer_pos = n } in
      let room : n ≤ pipe_buffer_size - tty.pipe_in.write_ptr = omega (arith, v, fits) in
      rw (buf_char c, queue-turn (put_char c tty) n u v (omega arith) (omega (arith, v, fits)))
        (record {
          line =
              ap₂ (λ t d. record { typed = t; delivered = d }) (slice-zero (put_char c tty) 0)
                (write_turn-contents (put_char c tty) n tty.pipe_in v 0 n room
                  ∙ ap (λ x. contents tty.pipe_in ++ x) (put_char-slice c tty));
          valid = write_turn-IsValid (put_char c tty) n tty.pipe_in v 0 n room;
          more = written c room;
          settings = refl;
        })

  untouched : (e : Event) → Edited tty (happens e tty) (line_of tty)
  untouched e = record { line = refl; valid = v; more = omega (arith, fits); settings = refl }

  signal_char :
      (c : ℕ)
      → let t = tty.termios in
        Edited tty
          (if has_flag t.c_lflag Flag.isig
            then (if is_cc t Cc.vquit c
                then happens (signal_pgroup tty.fg_pgid 3) tty
                else if is_cc t Cc.vintr c
                then happens (signal_pgroup tty.fg_pgid 2) tty
                else if is_cc t Cc.vsusp c
                then happens (signal_pgroup tty.fg_pgid 24) tty
                else tty_buf_line_char c tty)
            else tty_buf_line_char c tty)
          (if has_flag t.c_lflag Flag.isig
              && (is_cc t Cc.vquit c || is_cc t Cc.vintr c || is_cc t Cc.vsusp c)
            then line_of tty
            else record (line_of tty) { typed = (line_of tty).typed ++ (c ∷ []) })
  signal_char c = elim (Bool-cases (has_flag tty.termios.c_lflag Flag.isig)) [
    | inr off ↦ rw off (plain_char c)
    | inl on ↦ elim (Bool-cases (is_cc tty.termios Cc.vquit c)) [
      | inl quits ↦ rw (on, quits) (untouched (signal_pgroup tty.fg_pgid 3))
      | inr q ↦ elim (Bool-cases (is_cc tty.termios Cc.vintr c)) [
        | inl stops ↦ rw (on, q, stops) (untouched (signal_pgroup tty.fg_pgid 2))
        | inr i ↦ elim (Bool-cases (is_cc tty.termios Cc.vsusp c)) [
          | inl halts ↦ rw (on, q, i, halts) (untouched (signal_pgroup tty.fg_pgid 24))
          | inr z ↦ rw (on, q, i, z) (plain_char c)
        ]
      ]
    ]
  ]

  pub control_char-edit :
      (c : ℕ) → Edited tty (control_char c tty) (edit_char tty.termios c (line_of tty))
  unfolding control_char
  control_char-edit c = elim (Bool-cases (c == 10 || is_cc tty.termios Cc.veol c)) [
    | inl ends ↦ rw ends (end_line c)
    | inr goes_on ↦ elim (Bool-cases (is_cc tty.termios Cc.verase c)) [
      | inl erases ↦
          rw (goes_on, erases)
            (elim (Bool-cases (tty.line_buffer_pos == 0)) [
              | inl empty ↦
                  let nothing : tty.line_buffer_pos ≡ 0 = ==→eq _ _ empty in
                  let same : tty.line_buffer_pos - 1 ≡ tty.line_buffer_pos =
                    omega (arith, nothing) in
                  rw empty (rw same at erase_char)
              | inr some_ ↦
                  let less : sub32 tty.line_buffer_pos 1 ≡ tty.line_buffer_pos - 1 =
                    omega (arith, ==→ne _ _ some_, fits) in
                  rw (some_, less) erase_char
            ])
      | inr e ↦ elim (Bool-cases (is_cc tty.termios Cc.vkill c)) [
        | inl kills ↦ rw (goes_on, e, kills) kill_line
        | inr k ↦ rw (goes_on, e, k) (signal_char c)
      ]
    ]
  ]
