-- ===== src/Tests/Blocks.antt =====
-- Block operations of the C library.
use posnk.Base.{◌≡◌, refl, arith, inl}
use posnk.Base.Memory.{Memory, copy}
use posnk.Crt.String.{memcpy}
use posnk.Crt.String.Copies.{memcpy_lem}

abbrev counting : Memory
counting i = i

memcpy_lem_example : memcpy 8 41 11 counting 12 ≡ copy counting 8 counting 41 11 12
memcpy_lem_example = memcpy_lem 8 41 11 counting 12 (inl (omega arith)) (inl (omega arith))

memcpy_restarts_run : memcpy 9 41 11 counting 12 ≡ 41
unfolding memcpy
memcpy_restarts_run = refl
