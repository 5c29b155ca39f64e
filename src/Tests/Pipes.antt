-- ===== src/Tests/Pipes.antt =====
-- Pipes.
use posnk.Base.{
  ◌+◌, ◌≡◌, refl, true, false, if◌then◌else◌, ◌==◌, List, [], ◌∷◌, ◌++◌, arith, inr, sub32,
}
use posnk.Base.Memory.{Memory, slice, copy}
use posnk.Kernel.Outcome.{Turn, returned, Ends}
use posnk.Kernel.Pipe.{Pipe, ok, eagain, pollin, pollhup, pipe_write, pipe_read, pipe_poll}
use posnk.Kernel.Loop.{loop}
use posnk.Kernel.Pipe.Fifo.{IsValid, contents, pipe_write_fits, pipe_write_refused, pipe_read_lem}
use posnk.Kernel.Pipe.Blocking.{IsSound, ReadDone, pipe_read-Ends}
use posnk.Kernel.Pipe.Writing.{WriteDone, WriteSleeps, pipe_write-Ends}
use posnk.Kernel.Pipe.Poll.{pipe_poll-pollin}

-- Four bytes written, one of them read; a reader and a writer.
abbrev four : Pipe
four = record {
  read_usage_count = 1;
  write_usage_count = 1;
  buffer = λ i. i + 65;
  write_ptr = 4;
  read_ptr = 1;
  write_lock = 0;
  read_lock = 1;
}

abbrev empty : Pipe
empty = record four { write_ptr = 0; read_ptr = 0; read_lock = 0 }

abbrev text : Memory
text i = 97 + i

-- A task that writes one byte and raises the reader's semaphore.
abbrev writer : List (Turn Pipe)
writer =
    record {
      others = λ p. record p { write_ptr = 1; read_ptr = 0; read_lock = 1 };
      signal = false;
      now = 5;
    }
    ∷ []

abbrev full : Pipe
full = record four { write_ptr = 4096 }

-- A task that empties the pipe and raises the writers' semaphore.
abbrev reader : List (Turn Pipe)
reader =
    record {
      others = λ p. record p { write_ptr = 0; read_ptr = 0; write_lock = 1 };
      signal = false;
      now = 5;
    }
    ∷ []

reads_from_pipe :
    pipe_read (λ _. 0) 2 false true 2 four []
    ≡ returned
        (ok, 2, copy (λ _. 0) 0 four.buffer 1 2)
        (record four {
          buffer = copy four.buffer 0 four.buffer 3 1;
          write_ptr = 1;
          read_ptr = 0;
          write_lock = 1;
        })
        []
unfolding pipe_read loop
reads_from_pipe = refl

pipe_write_fits_example :
    (p' : Pipe) × (pipe_write text 3 true 1 four [] ≡ returned (ok, 3) p' [])
    × (contents p' ≡ contents four ++ slice text 0 3)
    × IsValid p'
pipe_write_fits_example =
    pipe_write_fits text 3 four (omega arith) true 0 [] (omega arith) (omega arith)

pipe_write_refused_example : pipe_write text 4093 true 1 four [] ≡ returned (eagain, 0) four []
pipe_write_refused_example =
    pipe_write_refused text 4093 four (omega arith) 0 [] (omega arith) (inr (omega arith))

pipe_read_lem_example :
    (p' : Pipe) × (into' : Memory) × (pipe_read (λ _. 0) 8 true true 2 four []
      ≡ returned (ok, 3, into') p' [])
    × (contents four ≡ slice into' 0 3 ++ contents p')
    × IsValid p'
pipe_read_lem_example =
    pipe_read_lem (λ _. 0) 8 true four (omega arith) true 0 [] (omega arith) (omega arith)

pipe_read-Ends_example :
    Ends (ReadDone 8 true) IsSound (pipe_read (λ _. 0) 8 false true 4294967298 empty writer)
pipe_read-Ends_example =
    pipe_read-Ends 8 true (λ _. 0) empty writer 4294967298 (omega arith) ((λ p i. omega arith), tt)
      (omega arith)

pipe_write-Ends_example :
    Ends
      (WriteDone text 3 full reader)
      (WriteSleeps text 3 full reader)
      (pipe_write text 3 false 4294967298 full reader)
pipe_write-Ends_example =
    pipe_write-Ends text 3 full reader (omega arith) 4294967298 (omega arith)
      ((λ p i. omega arith), tt) (omega arith)

pipe_poll-pollin_example :
    pipe_poll four pollin
    ≡ (if four.write_usage_count == 0 then pollhup else 0)
      + (if sub32 four.write_ptr four.read_ptr == 0 then 0 else pollin)
pipe_poll-pollin_example = pipe_poll-pollin four
