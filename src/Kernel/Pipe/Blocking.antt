-- ===== src/Kernel/Pipe/Blocking.antt =====
-- Readers that wait: how a blocking read of a pipe can end.
use posnk.Base.{
  ℕ, ◌+◌, ◌^◌, ◌≤◌, ◌<◌, ◌≡◌, refl, Bool, false, not, ◌||◌, ==→eq, if◌then◌else◌, ◌==◌, List, arith,
  sub32, add32, Bool-cases, ◌⊎◌, inl, inr,
}
use posnk.Base.Memory.{Memory}
use posnk.Kernel.Outcome.{Turn, returned, Keep, Ends, ends, Ends-and_then}
use posnk.Kernel.Scheduler.{WaitResult, wait_ok}
use posnk.Kernel.Synch.{semaphore_up}
use posnk.Kernel.Synch.Wait.{patience, IsWaitable, interruptible_down-Ends}
use posnk.Kernel.Loop.{Continues, loop_inv}
use posnk.Kernel.Pipe.{
  Pipe, ok, eintr, pipe_buffer_size, turn_size, rewind, compact, Reading, ReadResult, read_sem,
  read_woken, read_empty, read_round, pipe_read,
}

-- The offsets are in order and inside the buffer, and the semaphores are 32-bit values.
pub record IsSound (p : Pipe) : Type 0 where
  pub ordered : p.read_ptr ≤ p.write_ptr
  pub inside : p.write_ptr ≤ pipe_buffer_size
  pub write_lock : p.write_lock < 2 ^ 32
  pub read_lock : p.read_lock < 2 ^ 32

read_sem-IsWaitable : IsWaitable read_sem IsSound
read_sem-IsWaitable = record {
  put_self = λ p. refl;
  value-put = λ v p i. refl;
  bounded = λ p i. i.read_lock;
  taken = λ p i. omega arith;
}

module _ (count : ℕ) (allocated : Bool) where
  -- Bytes have been moved only if the pipe was emptied by that.
  record IsReading (l : Reading) (p : Pipe) (ts : List (Turn Pipe)) : Type 0 where
    sound : IsSound p
    keep : Keep IsSound ts
    drained : (l.current_pos ≡ 0) ⊎ (p.write_ptr ≤ p.read_ptr)

  -- A round that moves bytes comes after all waits.
  abbrev measure : Reading → Pipe → List (Turn Pipe) → ℕ
  measure l p ts = (if l.current_pos == 0 then 1 else 0) + patience read_sem p ts

  -- How a blocking read ends.
  abbrev pub ReadDone : ReadResult → Pipe → List (Turn Pipe) → Type 0
  ReadDone (status, n, into) p ts = ((status ≡ ok) ⊎ (status ≡ eintr)) × IsSound p

  compact-IsSound : {p : Pipe} → IsSound p → IsSound (compact allocated p)
  unfolding compact
  compact-IsSound i = ground arith

  rewind-IsSound : {p : Pipe} → IsSound p → IsSound (rewind p)
  unfolding semaphore_up
  rewind-IsSound i = omega arith

  read_turn-IsSound :
      (p : Pipe)
      → IsSound p
      → IsSound (record p {
        read_ptr = add32 p.read_ptr (turn_size (sub32 p.write_ptr p.read_ptr) count);
      })
  read_turn-IsSound p i = ground arith

  read_woken-Ends :
      (l : Reading) (r : WaitResult) (p : Pipe) (ts : List (Turn Pipe)) (m : ℕ)
      → l.current_pos ≡ 0
      → IsSound p
      → Keep IsSound ts
      → patience read_sem p ts < m
      → Ends
          (Continues IsReading measure ReadDone (1 + m))
          IsSound
          (returned (read_woken l r p) p ts)
  unfolding read_woken
  read_woken-Ends l wait_ok p ts m start i keep lt =
      elim (Bool-cases
        (not (sub32 p.write_ptr p.read_ptr == 0) || not (p.write_usage_count == 0))) [
          | inl e ↦
              rw (e, read_woken)
                (ends
                  (record { sound = i; keep = keep; drained = inl start }, rw start (omega arith)))
          | inr e ↦ rw (e, read_woken) (ends (inl refl, i))
        ]
  read_woken-Ends l _ p ts m start i keep lt = ends (inr refl, i)

  read_empty-Ends :
      (l : Reading) (p : Pipe) (ts : List (Turn Pipe))
      → IsReading l p ts
      → Ends
          (Continues IsReading measure ReadDone (measure l p ts))
          IsSound
          (read_empty false l p ts)
  unfolding read_empty
  read_empty-Ends l p ts i = elim (Bool-cases (l.current_pos == 0)) [
    | inl e ↦ rw e (
        Ends-and_then
          (interruptible_down-Ends read_sem read_sem-IsWaitable (rewind p) ts i.keep
            (rewind-IsSound i.sound))
          λ r p' ts' (i', keep', lt).
            read_woken-Ends l r p' ts' (patience read_sem p ts) (==→eq _ 0 e) i' keep' lt)
    | inr e ↦ rw e (ends (inl refl, rewind-IsSound i.sound))
  ]

  read_round-Ends :
      (l : Reading) (p : Pipe) (ts : List (Turn Pipe))
      → IsReading l p ts
      → Ends
          (Continues IsReading measure ReadDone (measure l p ts))
          IsSound
          (read_round count false allocated l p ts)
  unfolding read_round
  read_round-Ends l p ts i =
      elim (Bool-cases (turn_size (sub32 p.write_ptr p.read_ptr) count == 0)) [
        | inl none ↦ rw none (read_empty-Ends l p ts i)
        | inr some ↦
            let n = turn_size (sub32 p.write_ptr p.read_ptr) count in
            elim (Bool-cases (add32 l.current_pos n == count)) [
              | inl all ↦
                  rw (some, all) (ends (inl refl, compact-IsSound (read_turn-IsSound p i.sound)))
              | inr part ↦
                  rw (some, part)
                    (ends (
                      record {
                        sound = read_turn-IsSound p i.sound;
                        keep = i.keep;
                        drained = ground arith;
                      },
                      ground arith,
                    ))
            ]
      ]

  -- A blocking read of a pipe whose offsets stay in order, and on which the other tasks keep them
  -- so, returns 0 or EINTR, never EAGAIN, and leaves the offsets in order; or the caller still
  -- sleeps when the schedule ends. With the fuel stated it never runs out.
  pub pipe_read-Ends :
      (into : Memory) (p : Pipe) (ts : List (Turn Pipe)) (fuel : ℕ)
      → IsSound p
      → Keep IsSound ts
      → 1 + patience read_sem p ts < fuel
      → Ends ReadDone IsSound (pipe_read into count false allocated fuel p ts)
  unfolding pipe_read
  pipe_read-Ends into p ts fuel i keep lt =
      loop_inv IsReading measure (read_round count false allocated) read_round-Ends fuel
        (record { current_pos = 0; into = into }) p ts
        (record { sound = i; keep = keep; drained = inl refl }) lt
