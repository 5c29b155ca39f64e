-- ===== src/Kernel/Pipe/Fifo.antt =====
-- A pipe is a queue of bytes: what pipe_write and pipe_read do to the bytes that it holds.
use posnk.Base.{
  ℕ, suc, ◌+◌, ◌-◌, ◌≤◌, ◌<◌, min, ◌≡◌, ◌≢◌, Bool, true, if◌then◌else◌, ◌==◌, List, ◌++◌, arith,
  sub32, add32, Bool-cases, ◌⊎◌, inl, inr,
}
use native.Mathlib.Decide.{dec_le}
use native.Mathlib.Nat.{sub-zero}
use mathlib.Core.List.{append-nil}
use posnk.Base.Memory.{Memory, copy, slice, slice-zero, slice-add, slice-copy, slice-copy_before}
use posnk.Kernel.Outcome.{Turn, returned}
use posnk.Kernel.Loop.{loop}
use posnk.Kernel.Pipe.{
  Pipe, ok, eagain, epipe, pipe_buffer_size, write_turn, write_round, pipe_write, rewind, compact,
  read_round, pipe_read, Reading,
}

-- The read offset is not past the write offset, and neither is past the buffer.
pub record IsValid (p : Pipe) : Type 0 where
  pub ordered : p.read_ptr ≤ p.write_ptr
  pub inside : p.write_ptr ≤ pipe_buffer_size

-- The bytes written and not yet read, oldest first.
abbrev pub contents : Pipe → List ℕ
contents p = slice p.buffer p.read_ptr (p.write_ptr - p.read_ptr)

module _ (from : Memory) (count : ℕ) (p : Pipe) (v : IsValid p) where
  pub write_turn-contents :
      (current_pos n : ℕ)
      → n ≤ pipe_buffer_size - p.write_ptr
      → contents (write_turn from current_pos n p) ≡ contents p ++ slice from current_pos n
  unfolding write_turn
  write_turn-contents current_pos n h =
      let e : add32 p.write_ptr n - p.read_ptr ≡ (p.write_ptr - p.read_ptr) + n = omega arith in
      let w : p.read_ptr + (p.write_ptr - p.read_ptr) ≡ p.write_ptr = omega arith in
      rw (
        e,
        slice-add,
        w,
        slice-copy,
        slice-copy_before p.buffer p.write_ptr from current_pos n p.read_ptr
            (p.write_ptr - p.read_ptr) (omega arith),
      )

  pub write_turn-IsValid :
      (current_pos n : ℕ)
      → n ≤ pipe_buffer_size - p.write_ptr
      → IsValid (write_turn from current_pos n p)
  unfolding write_turn
  write_turn-IsValid current_pos n h = omega arith

  write_round-fits :
      (non_block : Bool) (ts : List (Turn Pipe))
      → 0 < count
      → count ≤ pipe_buffer_size - p.write_ptr
      → write_round from count non_block 0 p ts
        ≡ returned (inr (ok, count)) (write_turn from 0 count p) ts
  unfolding write_round
  write_round-fits non_block ts pos fits = ground arith

  pub pipe_write-turn :
      (non_block : Bool) (k : ℕ) (ts : List (Turn Pipe))
      → 0 < count
      → count ≤ pipe_buffer_size - p.write_ptr
      → pipe_write from count non_block (suc k) p ts
        ≡ returned (ok, count) (write_turn from 0 count p) ts
  unfolding pipe_write loop
  pipe_write-turn non_block k ts pos fits = rw (write_round-fits non_block ts pos fits)

  -- A write of at least one byte that fits behind the write offset succeeds at once, however the
  -- pipe was opened and whatever the other tasks do: it returns 0 with the whole count, and its
  -- bytes stand behind those that the pipe held. The pipe stays valid.
  pub pipe_write_fits :
      (non_block : Bool) (k : ℕ) (ts : List (Turn Pipe))
      → 0 < count
      → count ≤ pipe_buffer_size - p.write_ptr
      → (p' : Pipe) × (pipe_write from count non_block (suc k) p ts ≡ returned (ok, count) p' ts)
        × (contents p' ≡ contents p ++ slice from 0 count)
        × IsValid p'
  pipe_write_fits non_block k ts pos fits = (
    write_turn from 0 count p,
    pipe_write-turn non_block k ts pos fits,
    write_turn-contents 0 count fits,
    write_turn-IsValid 0 count fits,
  )

  -- A write without blocking of at most 4096 bytes that do not fit behind the write offset, or of
  -- none, changes nothing and reports no bytes: EPIPE if the pipe has no reader, else EAGAIN.
  pub pipe_write_refused :
      (k : ℕ) (ts : List (Turn Pipe))
      → count ≤ pipe_buffer_size
      → (count ≡ 0) ⊎ (pipe_buffer_size - p.write_ptr < count)
      → pipe_write from count true (suc k) p ts
        ≡ returned (if p.read_usage_count == 0 then epipe else eagain, 0) p ts
  unfolding pipe_write loop write_round
  pipe_write_refused k ts small no_room = ground arith

-- How many bytes there are to read.
abbrev pub available : Pipe → ℕ
available p = p.write_ptr - p.read_ptr

-- The pipe after `n` bytes have been handed over.
abbrev advance : ℕ → Pipe → Pipe
advance n p = record p { read_ptr = add32 p.read_ptr n }

module _ (p : Pipe) (v : IsValid p) where
  advance-contents :
      (n : ℕ) → n ≤ available p → contents p ≡ slice p.buffer p.read_ptr n ++ contents (advance n p)
  advance-contents n h =
      let a : add32 p.read_ptr n ≡ p.read_ptr + n = omega arith in
      let e : p.write_ptr - p.read_ptr ≡ n + (p.write_ptr - (p.read_ptr + n)) = omega arith in
      rw (a, e, slice-add)

  advance-IsValid : (n : ℕ) → n ≤ available p → IsValid (advance n p)
  advance-IsValid n h = omega arith

module _ (into : Memory) (count : ℕ) (allocated : Bool) (p : Pipe) (v : IsValid p) where
  read_round-full :
      (non_block : Bool) (ts : List (Turn Pipe))
      → 0 < count
      → count ≤ available p
      → read_round count non_block allocated (record { current_pos = 0; into = into }) p ts
        ≡ returned
            (inr (ok, count, copy into 0 p.buffer p.read_ptr count))
            (compact allocated (advance count p))
            ts
  unfolding read_round
  read_round-full non_block ts pos h = ground arith

  read_round-part :
      (non_block : Bool) (ts : List (Turn Pipe))
      → 0 < available p
      → available p < count
      → read_round count non_block allocated (record { current_pos = 0; into = into }) p ts
        ≡ returned
            (inl (record {
              current_pos = available p;
              into = copy into 0 p.buffer p.read_ptr (available p);
            }))
            (advance (available p) p)
            ts
  unfolding read_round
  read_round-part non_block ts pos h = ground arith

module _ (allocated : Bool) (p : Pipe) (v : IsValid p) where
  compact-contents : contents (compact allocated p) ≡ contents p
  unfolding compact
  compact-contents = elim (Bool-cases (sub32 p.write_ptr p.read_ptr == 0)) [
    | inl e ↦
        let none : p.write_ptr - p.read_ptr ≡ 0 = ground arith in
        rw (e, none, slice-zero, slice-zero)
    | inr e ↦ elim (Bool-cases allocated) [
      | inl yes_ ↦
          let n : sub32 p.write_ptr p.read_ptr ≡ p.write_ptr - p.read_ptr = omega arith in
          rw (e, yes_, n, sub-zero, slice-copy)
      | inr no_ ↦ rw (e, no_)
    ]
  ]

  compact-IsValid : IsValid (compact allocated p)
  unfolding compact
  compact-IsValid = ground arith

-- A round that finds the pipe empty after an earlier one has moved bytes.
read_round-end :
    (count : ℕ) (non_block allocated : Bool) (l : Reading) (p : Pipe) (ts : List (Turn Pipe))
    → l.current_pos ≢ 0
    → IsValid p
    → p.write_ptr ≤ p.read_ptr
    → read_round count non_block allocated l p ts
      ≡ returned (inr (ok, l.current_pos, l.into)) (rewind p) ts
unfolding read_round
read_round-end count non_block allocated l p ts moved v empty = ground arith

module _ (into : Memory) (count : ℕ) (allocated : Bool) (p : Pipe) (v : IsValid p) where
  read_all :
      (non_block : Bool) (k : ℕ) (ts : List (Turn Pipe))
      → 0 < available p
      → available p < count
      → pipe_read into count non_block allocated (suc (suc k)) p ts
        ≡ returned
            (ok, available p, copy into 0 p.buffer p.read_ptr (available p))
            (rewind (advance (available p) p))
            ts
  unfolding pipe_read loop
  read_all non_block k ts some less = rw (
    read_round-part into count allocated p v non_block ts some less,
    read_round-end count non_block allocated
        (record { current_pos = available p; into = copy into 0 p.buffer p.read_ptr (available p) })
        (advance (available p) p) ts (omega arith) (omega arith) (omega arith),
  )

  -- A read of at least one byte from a pipe that holds some returns 0 at once, with as many bytes
  -- as there are up to the count. They are the oldest, in order, and what is left is what the pipe
  -- holds afterwards: also when there is no memory to move it to the front. The pipe stays valid.
  pub pipe_read_lem :
      (non_block : Bool) (k : ℕ) (ts : List (Turn Pipe))
      → 0 < count
      → 0 < available p
      → let n = min count (available p) in
        (p' : Pipe) × (into' : Memory) × (pipe_read into count non_block allocated
            (suc (suc k))
            p
            ts
          ≡ returned (ok, n, into') p' ts)
        × (contents p ≡ slice into' 0 n ++ contents p')
        × IsValid p'
  unfolding pipe_read loop
  pipe_read_lem non_block k ts pos some = elim (dec_le count (available p)) [
    | yes le ↦
        let n : min count (available p) ≡ count = omega arith in
        rw n (
          compact allocated (advance count p),
          copy into 0 p.buffer p.read_ptr count,
          rw (read_round-full into count allocated p v non_block ts pos le),
          rw
              (
                slice-copy,
                compact-contents allocated (advance count p) (advance-IsValid p v count le),
              )
              (advance-contents p v count le),
          compact-IsValid allocated (advance count p) (advance-IsValid p v count le),
        )
    | no gt ↦
        let n : min count (available p) ≡ available p = omega arith in
        rw n (
          rewind (advance (available p) p),
          copy into 0 p.buffer p.read_ptr (available p),
          read_all non_block k ts some (omega arith),
          rw (slice-copy, slice-zero, append-nil),
          omega arith,
        )
  ]
