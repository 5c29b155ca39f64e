-- ===== src/Kernel/Pipe/Poll.antt =====
-- What pipe_poll reports, the life of the usage counts, and calls of pipe_read and pipe_write at
-- the edges of what they handle.
use posnk.Base.{
  ℕ, suc, ◌+◌, ◌^◌, ◌<◌, ◌≡◌, Bool, true, if◌then◌else◌, ◌==◌, ◌↔◌, List, [], arith, bit_and, sub32,
  add32, inl, some,
}
use posnk.Base.Memory.{Memory, slice, slice-zero, slice-copy}
use posnk.Kernel.Outcome.{Turn, returned}
use posnk.Kernel.Loop.{loop}
use posnk.Kernel.Pipe.{
  Pipe, ok, eagain, pipe_buffer_size, pollin, pollout, pollhup, pipe_poll, pipe_free,
  pipe_open_read, pipe_open_write, pipe_close_read, pipe_close_write, pipe_read, rewind,
  write_round, write_turn, read_round,
}
use posnk.Kernel.Pipe.Fifo.{contents}

-- pipe_poll never reports that a pipe can be written, whatever is asked and however much room there
-- is: room is reported as POLLIN.
pub pipe_poll-pollout : (p : Pipe) (events : ℕ) → bit_and (pipe_poll p events) pollout ≡ 0
unfolding pipe_poll
pipe_poll-pollout p events = ground arith

-- Asked for input alone, pipe_poll reports input exactly when the offsets differ, and a hang-up
-- exactly when there is no writer.
pub pipe_poll-pollin :
    (p : Pipe)
    → pipe_poll p pollin
      ≡ (if p.write_usage_count == 0 then pollhup else 0)
        + (if sub32 p.write_ptr p.read_ptr == 0 then 0 else pollin)
unfolding pipe_poll
pipe_poll-pollin p = ground arith

-- A read of no bytes, without blocking, empties the pipe: it reports EAGAIN, or 0 if there is no
-- writer, and every byte that the pipe held is lost.
pub pipe_read_none :
    (into : Memory) (allocated : Bool) (k : ℕ) (p : Pipe) (ts : List (Turn Pipe))
    → (pipe_read into 0 true allocated (suc k) p ts
        ≡ returned (if p.write_usage_count == 0 then ok else eagain, 0, into) (rewind p) ts)
      × (contents (rewind p) ≡ [])
unfolding pipe_read loop read_round
pipe_read_none into allocated k p ts = (ground arith, rw slice-zero)

-- A write of more than 4096 bytes that finds the pipe empty takes 4096 bytes in every turn, also
-- when fewer are left: the pipe then holds bytes from behind the caller's buffer, and the write
-- goes on although more than `count` bytes have been taken.
pub write_round_overrun :
    (from : Memory) (count current_pos : ℕ) (non_block : Bool) (p : Pipe) (ts : List (Turn Pipe))
    → pipe_buffer_size < count
    → count < 2 ^ 31
    → current_pos < count
    → count < current_pos + pipe_buffer_size
    → p.write_ptr ≡ 0
    → p.read_ptr ≡ 0
    → (p' : Pipe) × (write_round from count non_block current_pos p ts
        ≡ returned (inl (current_pos + pipe_buffer_size)) p' ts)
      × (contents p' ≡ slice from current_pos pipe_buffer_size)
unfolding write_round
write_round_overrun from count current_pos non_block p ts big sane more short w r =
    (write_turn from current_pos pipe_buffer_size p, ground arith, write_turn_filled)
  where
    write_turn_filled :
        contents (write_turn from current_pos pipe_buffer_size p)
        ≡ slice from current_pos pipe_buffer_size
    write_turn_filled = rw (w, r) (slice-copy p.buffer 0 from current_pos pipe_buffer_size)

-- With counts below 2^31, a pipe is freed exactly when it has neither a reader nor a writer.
pub pipe_free_lem :
    (p : Pipe)
    → p.read_usage_count < 2 ^ 31
    → p.write_usage_count < 2 ^ 31
    → ((pipe_free p).1 ≡ some p) ↔ (0 < p.read_usage_count + p.write_usage_count)
unfolding pipe_free
pipe_free_lem p r w = (ground arith, ground arith)

-- An end that is opened and closed again leaves the pipe as it was, but that the last reader to
-- close raises the semaphore that writers wait on, and the last writer the one of the readers.
pub pipe_close-open :
    (p : Pipe)
    → p.read_usage_count < 2 ^ 31
    → p.write_usage_count < 2 ^ 31
    → (pipe_close_read (pipe_open_read p)
        ≡ (if p.read_usage_count == 0 then record p { write_lock = add32 p.write_lock 1 } else p))
      × (pipe_close_write (pipe_open_write p)
          ≡ (if p.write_usage_count == 0 then record p { read_lock = add32 p.read_lock 1 } else p))
unfolding pipe_open_read pipe_open_write pipe_close_read pipe_close_write
pipe_close-open p r w = (ground arith, ground arith)
