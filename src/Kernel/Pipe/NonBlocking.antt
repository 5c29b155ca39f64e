-- ===== src/Kernel/Pipe/NonBlocking.antt =====
-- A write without blocking ends in two rounds.
use posnk.Base.{ℕ, suc, ◌-◌, ◌≤◌, ◌<◌, ◌≡◌, true, if◌then◌else◌, ◌==◌, List, arith, ◌⊎◌, inl, inr}
use native.Mathlib.Decide.{dec_le}
use posnk.Base.Memory.{Memory}
use posnk.Kernel.Outcome.{Turn, returned}
use posnk.Kernel.Loop.{loop}
use posnk.Kernel.Pipe.{
  Pipe, Status, ok, epipe, eagain, pipe_buffer_size, write_turn, write_round, pipe_write,
}
use posnk.Kernel.Pipe.Fifo.{IsValid, pipe_write-turn, pipe_write_refused}

-- The status of a write that finds no room.
abbrev refused : Pipe → Status
refused p = if p.read_usage_count == 0 then epipe else eagain

fits_cases : (count room : ℕ) → ((0 < count) × (count ≤ room)) ⊎ ((count ≡ 0) ⊎ (room < count))
fits_cases count room = ground arith

module _ (from : Memory) (count : ℕ) (p : Pipe) (ts : List (Turn Pipe)) where
  -- A round that finds the pipe full up to its end.
  round_full :
      (current_pos : ℕ)
      → p.write_ptr ≡ pipe_buffer_size
      → write_round from count true current_pos p ts ≡ returned (inr (refused p, current_pos)) p ts
  unfolding write_round
  round_full current_pos full = ground arith

  -- A round of a write that is larger than any pipe.
  round_large :
      let n = pipe_buffer_size - p.write_ptr in
      p.write_ptr < pipe_buffer_size
      → pipe_buffer_size < count
      → write_round from count true 0 p ts ≡ returned (inl n) (write_turn from 0 n p) ts
  unfolding write_round
  round_large room large = ground arith

turn-write_ptr :
    (from : Memory) (p : Pipe)
    → p.write_ptr < pipe_buffer_size
    → (write_turn from 0 (pipe_buffer_size - p.write_ptr) p).write_ptr ≡ pipe_buffer_size
unfolding write_turn
turn-write_ptr from p room = omega arith

-- A write without blocking to a valid pipe returns in two rounds, whatever its count.
pub pipe_write_ends :
    (from : Memory) (count : ℕ) (p : Pipe) (k : ℕ) (ts : List (Turn Pipe))
    → IsValid p
    → (r : Status × ℕ) × (p' : Pipe) × (pipe_write from count true (suc (suc k)) p ts
        ≡ returned r p' ts)
unfolding pipe_write loop
pipe_write_ends from count p k ts v = elim (dec_le count pipe_buffer_size) [
  | yes small ↦ elim (fits_cases count (pipe_buffer_size - p.write_ptr)) [
    | inl (pos, room) ↦ (
      (ok, count),
      write_turn from 0 count p,
      pipe_write-turn from count p v true (suc k) ts pos room,
    )
    | inr none ↦ ((refused p, 0), p, pipe_write_refused from count p v (suc k) ts small none)
  ]
  | no large ↦ elim (dec_le pipe_buffer_size p.write_ptr) [
    | yes full ↦ ((refused p, 0), p, rw (round_full from count p ts 0 (omega (arith, v))))
    | no room ↦
        let n = pipe_buffer_size - p.write_ptr in
        let p' = write_turn from 0 n p in
        (
          (refused p', n),
          p',
          rw (
            round_large from count p ts (omega arith) (omega arith),
            round_full from count p' ts n (turn-write_ptr from p (omega arith)),
          ),
        )
  ]
]
