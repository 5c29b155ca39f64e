-- ===== src/Crt/Numfmt.antt =====
-- crt/numfmt.c: numfmt_unsigned. Its buffer is a `Memory` of 33 bytes, CHAR_BIT * sizeof(int) + 1, the
-- number has 64 bits, and `size_t` 32. `none` is a failed assertion, an access outside of the buffer,
-- or the end of the fuel of the loop.
pub mod Digits
pub mod Number
use posnk.Base.{
  ℕ, zero, suc, ◌+◌, ◌-◌, ◌/◌, ◌%◌, ◌^◌, Bool, not, ◌||◌, ◌&&◌, ◌==◌, ltb, leb, if◌then◌else◌,
  Option, none, some, bit_and, sub32,
}
use posnk.Base.Memory.{Memory, copy}

-- NF_ZEROPAD and NF_SGNPLUS.
abbrev pub nf_zeropad : ℕ
nf_zeropad = 1

abbrev pub nf_sgnplus : ℕ
nf_sgnplus = 2

-- `sizeof buf`.
abbrev pub buf_size : ℕ
buf_size = 33

-- A character of "0123456789ABCDEF".
abbrev pub digit_char : ℕ → ℕ
digit_char d = if ltb d 10 then 48 + d else 55 + d

abbrev pub put : ℕ → ℕ → Memory → Memory
put a v f i = if i == a then v else f i

-- The loop that converts the number; the result is `pos` with the buffer.
unfoldable pub convert : ℕ → (base num pos : ℕ) → Memory → Option (ℕ × Memory)
convert zero base num pos buf = none
convert (suc k) base num pos buf =
    let buf' = put (buf_size - pos) (digit_char (num % base)) buf in
    let rest = convert k base (num / base) (pos + 1) buf' in
    if ltb buf_size pos then none else if num / base == 0 then some (pos + 1, buf') else rest

-- The sign before the number, and `pos--`.
unfoldable pub sign : (flags pos : ℕ) → Memory → Option (ℕ × Memory)
sign flags pos buf =
    if bit_and flags nf_sgnplus == 0
    then some (pos - 1, buf)
    else if ltb buf_size pos
    then none
    else some (pos, put (buf_size - pos) 43 buf)

-- The padding before the `pos` characters.
unfoldable pub pad_to : (flags width pos : ℕ) → Memory → Memory
pad_to flags width pos buf i =
    if leb (buf_size - width) i && ltb i (buf_size - pos)
    then (if bit_and flags nf_zeropad == 0 then 32 else 48)
    else buf i

-- What is copied out: the last characters, if there is no room for all, and a NUL.
unfoldable pub copy_out : (width str_len : ℕ) → Memory → Memory → Option Memory
copy_out width str_len buf str =
    let w = if leb (sub32 str_len 1) width then sub32 str_len 2 else width in
    if ltb buf_size w then none else some (put w 0 (copy str 0 buf (buf_size - w) w))

unfoldable pub numfmt_unsigned :
    ℕ → (num flags width base str_len : ℕ) → (buf str : Memory) → Option Memory
numfmt_unsigned fuel num flags width base str_len buf str =
    if ltb base 2 || ltb 16 base || leb (2 ^ 31) width || leb buf_size width
    then none
    else elim (convert fuel base num 1 buf) [
      | none ↦ none
      | some (pos, buf₁) ↦ elim (sign flags pos buf₁) [
        | none ↦ none
        | some (pos', buf₂) ↦
            if ltb pos' width
            then copy_out width str_len (pad_to flags width pos' buf₂) str
            else copy_out pos' str_len buf₂ str
      ]
    ]
