-- ===== src/Kernel/Pipe/Writing.antt =====
-- Writers that wait: how a blocking write to a pipe can end.
use posnk.Base.{
  ℕ, ◌-◌, ◌≤◌, ◌<◌, ◌≡◌, refl, ap, ◌∙◌, true, false, ◌||◌, ◌&&◌, ltb, leb, ==→eq, ◌==◌, List, [],
  ◌++◌, arith, sub32, add32, Bool-cases, ◌⊎◌, inl, inr,
}
use native.Mathlib.Decide.{dec_lt}
use posnk.Base.Memory.{Memory, slice}
use posnk.Kernel.Outcome.{Turn, returned, Keep, Ends, ends, Ends-and_then, Ends-both, Ends-weaken}
use posnk.Kernel.Scheduler.{WaitResult, wait_ok, wait_intr, wait_timeout}
use posnk.Kernel.Synch.{semaphore_up}
use posnk.Kernel.Synch.Wait.{patience, IsWaitable, Woken, interruptible_down-Ends}
use posnk.Kernel.Synch.Waits.{
  Waits, here, Waits-trans, IsSignalled, Waited, interruptible_down-Waits,
}
use posnk.Kernel.Loop.{Continues, loop_inv}
use posnk.Kernel.Pipe.{
  Pipe, ok, epipe, eintr, pipe_buffer_size, turn_size, Status, write_sem, write_woken, write_turn,
  write_round, pipe_write,
}
use posnk.Kernel.Pipe.Fifo.{IsValid, contents, write_turn-contents}
use posnk.Kernel.Pipe.Blocking.{IsSound}

write_sem-IsWaitable : IsWaitable write_sem IsSound
write_sem-IsWaitable = record {
  put_self = λ p. refl;
  value-put = λ v p i. refl;
  bounded = λ p i. i.write_lock;
  taken = λ p i. omega arith;
}

-- A writer that may write at once what it has: the count is at most the size of the buffer. It starts
-- with the pipe `p₀` and the turns `ts₀`.
module _ (from : Memory) (count : ℕ) (p₀ : Pipe) (ts₀ : List (Turn Pipe)) where
  abbrev pub HasNoRoom : Pipe → Type 0
  HasNoRoom q = (count ≡ 0) ⊎ (pipe_buffer_size - q.write_ptr < count)

  -- The writer has only waited, and then, in one step, put all its bytes behind those that the pipe
  -- held, and raised the semaphore of the readers.
  pub record IsWritten (p : Pipe) (ts : List (Turn Pipe)) : Type 0 where
    pub found : Pipe
    pub waits : Waits write_sem p₀ ts₀ found ts
    pub room : count ≤ pipe_buffer_size - found.write_ptr
    pub appended : contents p ≡ contents found ++ slice from 0 count
    pub woken : p.read_lock ≡ semaphore_up found.read_lock
    pub reader : p.read_ptr ≡ found.read_ptr

  -- The writer has found no room, and has done nothing but wait before and after.
  pub record HasWaited (p : Pipe) (ts : List (Turn Pipe)) : Type 0 where
    pub full : Pipe
    pub turns : List (Turn Pipe)
    pub before : Waits write_sem p₀ ts₀ full turns
    pub no_space : HasNoRoom full
    pub waits : Waits write_sem full turns p ts

  -- Why a writer that has written nothing comes back: there is no reader, or a signal came.
  abbrev pub Refused : Status → Pipe → List (Turn Pipe) → Type 0
  Refused status p ts =
      (status ≡ epipe) × (p.read_usage_count ≡ 0)
      ⊎ (status ≡ eintr) × IsSignalled write_sem p₀ ts₀ p ts

  -- How a blocking write ends: all bytes are written, or none.
  abbrev pub WriteDone : Status × ℕ → Pipe → List (Turn Pipe) → Type 0
  WriteDone (status, n) p ts =
      ((status ≡ ok) × (n ≡ count) × IsWritten p ts
        ⊎ (n ≡ 0) × HasWaited p ts × Refused status p ts)
      × IsSound p

  -- How a writer that still sleeps has left the pipe.
  abbrev pub WriteSleeps : Pipe → Type 0
  WriteSleeps p = IsSound p × HasWaited p []

  record IsWriting (pos : ℕ) (p : Pipe) (ts : List (Turn Pipe)) : Type 0 where
    sound : IsSound p
    keep : Keep IsSound ts
    start : pos ≡ 0
    reached : Waits write_sem p₀ ts₀ p ts

  abbrev write_measure : ℕ → Pipe → List (Turn Pipe) → ℕ
  write_measure pos p ts = patience write_sem p ts

  -- A signal after a wait that has come so far.
  later-IsSignalled :
      {q p : Pipe} {us ts : List (Turn Pipe)}
      → Waits write_sem p₀ ts₀ q us
      → IsSignalled write_sem q us p ts
      → IsSignalled write_sem p₀ ts₀ p ts
  later-IsSignalled w i = record {
    before = i.before;
    turn = i.turn;
    waits = Waits-trans write_sem w i.waits;
    after = i.after;
    signal = i.signal;
    low = i.low;
  }

  waited :
      (q : Pipe) (us : List (Turn Pipe)) (p : Pipe) (ts : List (Turn Pipe))
      → Waits write_sem p₀ ts₀ q us
      → HasNoRoom q
      → Waits write_sem q us p ts
      → HasWaited p ts
  waited q us p ts before full w = record {
    full = q;
    turns = us;
    before = before;
    no_space = full;
    waits = w;
  }

  module _ (small : count ≤ pipe_buffer_size) where
    write_woken-Ends :
        (pos : ℕ) (q : Pipe) (us : List (Turn Pipe)) (r : WaitResult) (p : Pipe)
        (ts : List (Turn Pipe))
        → IsWriting pos q us
        → HasNoRoom q
        → Woken write_sem write_sem-IsWaitable (patience write_sem q us) r p ts
        → Waited write_sem q us r p ts
        → Ends
            (Continues IsWriting write_measure WriteDone (patience write_sem q us))
            WriteSleeps
            (returned (write_woken pos r p) p ts)
    unfolding write_woken
    write_woken-Ends pos q us wait_ok p ts i full (sound, keep, less) (w, why) =
        elim (Bool-cases (p.read_usage_count == 0)) [
          | inl e ↦
              rw (e, write_woken)
                (ends (
                  inr (i.start, waited q us p ts i.reached full w, inl (refl, ==→eq _ 0 e)),
                  sound,
                ))
          | inr e ↦
              rw (e, write_woken)
                (ends (
                  record {
                    sound = sound;
                    keep = keep;
                    start = i.start;
                    reached = Waits-trans write_sem i.reached w;
                  },
                  less,
                ))
        ]
    write_woken-Ends pos q us wait_intr p ts i full (sound, keep, less) (w, why) = ends (
      inr (i.start, waited q us p ts i.reached full w, inr (refl, later-IsSignalled i.reached why)),
      sound,
    )
    write_woken-Ends pos q us wait_timeout p ts i full (sound, keep, less) (w, why) = absurd why

    write_turn-IsSound :
        (pos n : ℕ) (p : Pipe)
        → IsSound p
        → n ≤ pipe_buffer_size - p.write_ptr
        → IsSound (write_turn from pos n p)
    unfolding write_turn
    write_turn-IsSound pos n p i h = omega arith

    HasNoRoom-tested :
        (p : Pipe)
        → IsSound p
        → (let n = turn_size (sub32 pipe_buffer_size p.write_ptr) count in
            n == 0 || (ltb n count && leb count pipe_buffer_size))
          ≡ true
        → HasNoRoom p
    HasNoRoom-tested p sound full = elim (dec_lt (pipe_buffer_size - p.write_ptr) count) [
      | yes lt ↦ inr lt
      | no ge ↦ inl (ground (arith, sound.inside, ge, full))
    ]

    written-contents :
        (pos : ℕ) (p : Pipe) {ts : List (Turn Pipe)}
        → IsWriting pos p ts
        → count ≤ pipe_buffer_size - p.write_ptr
        → contents (write_turn from pos count p) ≡ contents p ++ slice from 0 count
    written-contents pos p i fits =
        let valid : IsValid p = record { ordered = i.sound.ordered; inside = i.sound.inside } in
        write_turn-contents from count p valid pos count fits
        ∙ ap (λ x. contents p ++ slice from x count) i.start

    write_round-Ends :
        (pos : ℕ) (p : Pipe) (ts : List (Turn Pipe))
        → IsWriting pos p ts
        → Ends
            (Continues IsWriting write_measure WriteDone (write_measure pos p ts))
            WriteSleeps
            (write_round from count false pos p ts)
    unfolding write_round
    write_round-Ends pos p ts i =
        let n = turn_size (sub32 pipe_buffer_size p.write_ptr) count in
        elim (Bool-cases (n == 0 || (ltb n count && leb count pipe_buffer_size))) [
          | inl full ↦
              let nothing : HasNoRoom p = HasNoRoom-tested p i.sound full in
              rw full (
                Ends-and_then
                  (Ends-weaken
                    (Ends-both
                      (interruptible_down-Ends write_sem write_sem-IsWaitable p ts i.keep i.sound)
                      (interruptible_down-Waits write_sem (λ q. refl) p ts))
                    (λ r p' ts' both. both)
                    (λ p' (sound, w). (sound, waited p ts p' [] i.reached nothing w)))
                  λ r p' ts' (woken, w). write_woken-Ends pos p ts r p' ts' i nothing woken w)
          | inr room ↦
              let all : (add32 pos n == count) ≡ true =
                ground (arith, i.start, i.sound.inside, room) in
              let whole : n ≡ count = ground (arith, i.sound.inside, room) in
              let fits : count ≤ pipe_buffer_size - p.write_ptr =
                ground (arith, i.sound.inside, room) in
              rw (room, all, whole)
                (ends (
                  inl (
                    refl,
                    refl,
                    record {
                      found = p;
                      waits = i.reached;
                      room = fits;
                      appended = written-contents pos p i fits;
                      woken = refl;
                      reader = refl;
                    },
                  ),
                  write_turn-IsSound pos count p i.sound fits,
                ))
        ]

    -- A blocking write of at most 4096 bytes is all or nothing. If it gives 0, it gives the whole count,
    -- and after waiting it has put all the bytes behind those that the pipe then held, at once, and woken
    -- a reader. If it gives EPIPE or EINTR, it gives no bytes, and it has found no room and has done
    -- nothing to the pipe but take the semaphore of the writers; with EPIPE the pipe has no reader, and
    -- with EINTR a signal came. Or the caller still sleeps when the schedule ends, having found no room
    -- and written nothing. The offsets stay in order if the other tasks keep them so, and the fuel stated
    -- is enough.
    pub pipe_write-Ends :
        (fuel : ℕ)
        → IsSound p₀
        → Keep IsSound ts₀
        → patience write_sem p₀ ts₀ < fuel
        → Ends WriteDone WriteSleeps (pipe_write from count false fuel p₀ ts₀)
    unfolding pipe_write
    pipe_write-Ends fuel sound keep lt =
        loop_inv IsWriting write_measure (write_round from count false) write_round-Ends fuel 0 p₀
          ts₀ (record { sound = sound; keep = keep; start = refl; reached = here }) lt
