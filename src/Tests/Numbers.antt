-- ===== src/Tests/Numbers.antt =====
-- Formatted numbers.
use posnk.Base.{ℕ, ◌^◌, ◌≡◌, refl, none, some, arith}
use posnk.Base.Memory.{Memory}
use posnk.Crt.Numfmt.{convert, numfmt_unsigned}
use posnk.Crt.Numfmt.Number.{Formatted, numfmt_unsigned_lem}

abbrev bytes : Memory
bytes i = 0

-- 2 ^ 33 in base 2 does not fit into the buffer.
overruns : numfmt_unsigned 64 (2 ^ 33) 0 0 2 80 bytes bytes ≡ none
unfolding numfmt_unsigned convert
overruns = refl

-- The number 1000 in base 16, at width 6, with zeros.
numfmt_unsigned_lem_example :
    (w : ℕ) × (m : ℕ) × (str' : Memory) × (numfmt_unsigned 3 1000 1 6 16 20 bytes bytes ≡ some str')
    × Formatted 16 1000 6 48 str' w m
numfmt_unsigned_lem_example =
    numfmt_unsigned_lem 16 1000 1 6 20 3 bytes bytes (omega arith) (omega arith) refl (omega arith)
      (omega arith) (omega arith) (omega arith) (omega arith) (omega arith)
