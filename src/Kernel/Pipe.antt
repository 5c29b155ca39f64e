-- ===== src/Kernel/Pipe.antt =====
-- kernel/pipe.c: a pipe is a linear buffer of 4096 bytes with a read and a write offset, which go
-- back to 0 when the reader has caught up. Offsets and counts are 32-bit unsigned; usage counts
-- are kept as their 32-bit pattern. A caller's buffer is a `Memory` of its own.
-- Each `for (;;)` is a round that `loop` repeats.
pub mod Fifo
pub mod Blocking
pub mod Writing
pub mod Poll
pub mod NonBlocking
use posnk.Base.{
  ℕ, zero, suc, ◌+◌, ◌-◌, Bool, true, false, ◌&&◌, ◌||◌, not, ◌==◌, ltb, leb, if◌then◌else◌, Option,
  none, some, ◌⊎◌, inl, inr, List, bit_and, bit_or, add32, sub32,
}
use posnk.Base.Memory.{Memory, copy}
use posnk.Kernel.Outcome.{Turn, Outcome, returned, and_then}
use posnk.Kernel.Scheduler.{Sem, WaitResult, wait_ok}
use posnk.Kernel.Synch.{semaphore_up, semaphore_init, interruptible_down}
use posnk.Kernel.Loop.{Round, loop}

-- `struct pipe_info`.
pub record Pipe : Type 0 where
  pub read_usage_count : ℕ
  pub write_usage_count : ℕ
  pub buffer : Memory
  pub write_ptr : ℕ
  pub read_ptr : ℕ
  pub write_lock : ℕ
  pub read_lock : ℕ

-- CONFIG_PIPE_BUFFER_SIZE.
abbrev pub pipe_buffer_size : ℕ
pipe_buffer_size = 4096

-- The error numbers that a pipe returns.
pub data Status : Type 0 where
  ok eagain epipe eintr ebusy : Status

abbrev pub write_sem : Sem Pipe
write_sem = record { value = λ p. p.write_lock; put = λ v p. record p { write_lock = v } }

abbrev pub read_sem : Sem Pipe
read_sem = record { value = λ p. p.read_lock; put = λ v p. record p { read_lock = v } }

-- The arguments are what the two allocations give: whether there is a `pipe_info_t`, and the bytes
-- that its buffer holds at first.
unfoldable pub pipe_create : (allocated : Bool) → Memory → Option Pipe
pipe_create allocated bytes =
    if not allocated
    then none
    else some (record {
      read_usage_count = 0;
      write_usage_count = 0;
      buffer = bytes;
      write_ptr = 0;
      read_ptr = 0;
      write_lock = semaphore_init;
      read_lock = semaphore_init;
    })

-- `none` is the pipe that has been freed.
unfoldable pub pipe_free : Pipe → Status × Option Pipe
pipe_free p =
    if not (add32 p.read_usage_count p.write_usage_count == 0) then (ebusy, some p) else (ok, none)

unfoldable pub pipe_open_read : Pipe → Pipe
pipe_open_read p = record p { read_usage_count = add32 p.read_usage_count 1 }

unfoldable pub pipe_open_write : Pipe → Pipe
pipe_open_write p = record p { write_usage_count = add32 p.write_usage_count 1 }

-- The last reader wakes the writers, and the last writer the readers.
unfoldable pub pipe_close_read : Pipe → Pipe
unfolding semaphore_up
pipe_close_read p =
    let p' = record p { read_usage_count = sub32 p.read_usage_count 1 } in
    if p'.read_usage_count == 0 then record p' { write_lock = semaphore_up p'.write_lock } else p'

unfoldable pub pipe_close_write : Pipe → Pipe
unfolding semaphore_up
pipe_close_write p =
    let p' = record p { write_usage_count = sub32 p.write_usage_count 1 } in
    if p'.write_usage_count == 0 then record p' { read_lock = semaphore_up p'.read_lock } else p'

-- POLLIN, POLLOUT and POLLHUP.
abbrev pub pollin : ℕ
pollin = 6

abbrev pub pollout : ℕ
pollout = 32

abbrev pub pollhup : ℕ
pollhup = 256

-- The second branch of the source sets POLLIN too.
poll_read : Pipe → ℕ → ℕ
poll_read p revents =
    let r = if p.write_usage_count == 0 then bit_or revents pollhup else revents in
    if sub32 p.write_ptr p.read_ptr == 0 then r else bit_or r pollin

poll_write : Pipe → ℕ → ℕ
poll_write p revents =
    let r = if p.read_usage_count == 0 then bit_or revents pollhup else revents in
    if ltb p.write_ptr pipe_buffer_size then bit_or r pollin else r

unfoldable pub pipe_poll : Pipe → ℕ → ℕ
unfolding poll_read poll_write
pipe_poll p events =
    let r = if bit_and events pollin == 0 then 0 else poll_read p 0 in
    if bit_and events pollout == 0 then r else poll_write p r

unfoldable pub pipe_remaining_space : Pipe → ℕ
pipe_remaining_space p = sub32 pipe_buffer_size p.write_ptr

unfoldable pub pipe_is_full : Pipe → Bool
pipe_is_full p = leb pipe_buffer_size p.write_ptr

unfoldable pub pipe_is_empty : Pipe → Bool
pipe_is_empty p = leb p.write_ptr p.read_ptr

-- One turn moves at most `count` bytes of what `room` allows.
abbrev pub turn_size : (room count : ℕ) → ℕ
turn_size room count = if ltb count room then count else room

-- The branch of `pipe_write` that has no room; `woken` is what follows the wait.
unfoldable pub write_woken : ℕ → WaitResult → Pipe → ℕ ⊎ (Status × ℕ)
write_woken current_pos wait_ok p =
    if p.read_usage_count == 0 then inr (epipe, current_pos) else inl current_pos
write_woken current_pos _ p = inr (eintr, current_pos)

unfoldable pub write_blocked :
    (non_block : Bool) → ℕ → Pipe → List (Turn Pipe) → Outcome Pipe (ℕ ⊎ (Status × ℕ))
unfolding write_woken
write_blocked true current_pos p ts =
    returned (inr (if p.read_usage_count == 0 then epipe else eagain, current_pos)) p ts
write_blocked false current_pos p ts =
    and_then (interruptible_down write_sem p ts)
      λ r p' ts'. returned (write_woken current_pos r p') p' ts'

-- The copy of one turn.
unfoldable pub write_turn : Memory → ℕ → ℕ → Pipe → Pipe
unfolding semaphore_up
write_turn from current_pos n p = record p {
  buffer = copy p.buffer p.write_ptr from current_pos n;
  write_ptr = add32 p.write_ptr n;
  read_lock = semaphore_up p.read_lock;
}

-- The local variable is `current_pos`; the result is the status with `*write_count`.
unfoldable pub write_round : Memory → ℕ → (non_block : Bool) → Round Pipe ℕ (Status × ℕ)
unfolding write_blocked write_turn
write_round from count non_block current_pos p ts =
    let n = turn_size (sub32 pipe_buffer_size p.write_ptr) count in
    if n == 0 || (ltb n count && leb count pipe_buffer_size)
    then write_blocked non_block current_pos p ts
    else let pos = add32 current_pos n in
      returned (if pos == count then inr (ok, count) else inl pos) (write_turn from current_pos n p)
        ts

unfoldable pub pipe_write :
    Memory → ℕ → (non_block : Bool) → ℕ → Pipe → List (Turn Pipe) → Outcome Pipe (Status × ℕ)
unfolding write_round
pipe_write from count non_block fuel p ts = loop (write_round from count non_block) fuel 0 p ts

-- Of a read the local variables are `current_pos` and the bytes of the caller's buffer.
pub record Reading : Type 0 where
  pub current_pos : ℕ
  pub into : Memory

-- The status with `*read_count` and the caller's buffer.
abbrev pub ReadResult : Type 0
ReadResult = Status × ℕ × Memory

-- What follows the wait of a reader.
unfoldable pub read_woken : Reading → WaitResult → Pipe → Reading ⊎ ReadResult
read_woken l wait_ok p =
    if not (sub32 p.write_ptr p.read_ptr == 0) || not (p.write_usage_count == 0)
    then inl l
    else inr (ok, l.current_pos, l.into)
read_woken l _ p = inr (eintr, l.current_pos, l.into)

-- The offsets go back to 0, and the writers are woken.
abbrev pub rewind : Pipe → Pipe
rewind p = record p { write_ptr = 0; read_ptr = 0; write_lock = semaphore_up p.write_lock }

-- The branch of `pipe_read` that finds no bytes.
unfoldable pub read_empty :
    (non_block : Bool) → Reading → Pipe → List (Turn Pipe) → Outcome Pipe (Reading ⊎ ReadResult)
unfolding read_woken semaphore_up
read_empty non_block l p ts =
    let p' = rewind p in
    if not (l.current_pos == 0)
    then returned (inr (ok, l.current_pos, l.into)) p' ts
    else if non_block
    then returned (inr (if p'.write_usage_count == 0 then ok else eagain, l.current_pos, l.into)) p'
        ts
    else and_then (interruptible_down read_sem p' ts)
        λ r p'' ts'. returned (read_woken l r p'') p'' ts'

-- After a full read the bytes that are left move to the front; `allocated` says whether there is
-- memory for the copy that this takes.
unfoldable pub compact : (allocated : Bool) → Pipe → Pipe
unfolding semaphore_up
compact allocated p =
    let n = sub32 p.write_ptr p.read_ptr in
    if n == 0 then rewind p else if not allocated then p else record p {
      buffer = copy p.buffer 0 p.buffer p.read_ptr n;
      write_ptr = n;
      read_ptr = 0;
      write_lock = semaphore_up p.write_lock;
    }

unfoldable pub read_round : ℕ → (non_block allocated : Bool) → Round Pipe Reading ReadResult
unfolding read_empty compact
read_round count non_block allocated l p ts =
    let n = turn_size (sub32 p.write_ptr p.read_ptr) count in
    if n == 0
    then read_empty non_block l p ts
    else let into = copy l.into l.current_pos p.buffer p.read_ptr n in
      let p' = record p { read_ptr = add32 p.read_ptr n } in
      let pos = add32 l.current_pos n in
      if pos == count
      then returned (inr (ok, count, into)) (compact allocated p') ts
      else returned (inl (record { current_pos = pos; into = into })) p' ts

unfoldable pub pipe_read :
    Memory
    → ℕ
    → (non_block allocated : Bool) → ℕ
    → Pipe
    → List (Turn Pipe)
    → Outcome Pipe ReadResult
unfolding read_round
pipe_read into count non_block allocated fuel p ts =
    loop (read_round count non_block allocated) fuel (record { current_pos = 0; into = into }) p ts
