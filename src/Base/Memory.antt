-- ===== src/Base/Memory.antt =====
-- Memory as a function from offsets to bytes, block copies, and the list of bytes in a range.
use Prim.Native.Nat.{ℕ, zero, suc, ◌+◌, ◌-◌, ◌≤◌, ◌<◌}
use mathlib.Core.Path.{◌≡◌, refl, ap, ap₂, ◌∙◌}
use mathlib.Core.Bool.{◌&&◌}
use mathlib.Core.List.{List, [], ◌∷◌, ◌++◌}
use native.Mathlib.Nat.{add-zero, zero-add}
use native.Mathlib.Omega.{arith}
use posnk.Base.Tests.{ltb, leb, if◌then◌else◌}

abbrev pub Memory : Type 0
Memory = ℕ → ℕ

-- `memcpy(dst + d, src + s, n)` between regions that do not overlap: the new contents of `dst`.
unfoldable pub copy : Memory → ℕ → Memory → ℕ → ℕ → Memory
copy dst d src s n i = if leb d i && ltb i (d + n) then src (s + (i - d)) else dst i

-- The `n` bytes from offset `i` on.
unfoldable pub slice : Memory → ℕ → ℕ → List ℕ
slice f i zero = []
slice f i (suc n) = f i ∷ slice f (i + 1) n

pub slice-zero : (f : Memory) (i : ℕ) → slice f i 0 ≡ []
unfolding slice
slice-zero f i = refl

-- Two ranges that agree byte by byte.
pub slice-eq :
    (f g : Memory) (i j n : ℕ)
    → ((k : ℕ) → k < n → f (i + k) ≡ g (j + k))
    → slice f i n ≡ slice g j n
unfolding slice
slice-eq f g i j zero h = refl
slice-eq f g i j (suc n) h = ap₂ ◌∷◌ (ground (arith, h 0, add-zero i, add-zero j)) (
    slice-eq f g (i + 1) (j + 1) n λ k lt.
      let l : i + 1 + k ≡ i + (k + 1) = omega arith in
      let r : j + 1 + k ≡ j + (k + 1) = omega arith in
      ap f l ∙ h (k + 1) (omega arith) ∙ ap g (omega arith))

pub slice-add : (f : Memory) (i m n : ℕ) → slice f i (m + n) ≡ slice f i m ++ slice f (i + m) n
unfolding slice
slice-add f i zero n = rw (zero-add, add-zero)
slice-add f i (suc m) n =
    let e : suc m + n ≡ suc (m + n) = omega arith in
    rw e (
      ap (λ xs. f i ∷ xs)
        (slice-add f (i + 1) m n ∙ ap (λ (k : ℕ). slice f (i + 1) m ++ slice f k n) (omega arith)))

-- The bytes that a copy has written.
pub slice-copy :
    (dst : Memory) (d : ℕ) (src : Memory) (s n : ℕ) → slice (copy dst d src s n) d n ≡ slice src s n
unfolding copy
slice-copy dst d src s n = slice-eq _ src d s n λ k lt. ground arith

-- The bytes before them.
pub slice-copy_before :
    (dst : Memory) (d : ℕ) (src : Memory) (s n i m : ℕ)
    → i + m ≤ d
    → slice (copy dst d src s n) i m ≡ slice dst i m
unfolding copy
slice-copy_before dst d src s n i m h = slice-eq _ dst i i m λ k lt. ground arith
