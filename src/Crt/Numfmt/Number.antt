-- ===== src/Crt/Numfmt/Number.antt =====
-- What numfmt_unsigned gives: padding and then the digits of the number.
use posnk.Base.{
  ℕ, ◌+◌, ◌-◌, ◌^◌, ◌≤◌, ◌<◌, ◌≡◌, ◌≢◌, refl, sym, ap, ◌∙◌, true, false, ◌||◌, ◌==◌, ltb, leb,
  if◌then◌else◌, some, arith, bit_and, ◌⊎◌, inl, inr,
}
use native.Mathlib.Decide.{dec_lt}
use posnk.Base.Memory.{Memory, copy, slice, slice-eq}
use posnk.Crt.Numfmt.{
  buf_size, nf_zeropad, nf_sgnplus, put, sign, pad_to, copy_out, numfmt_unsigned,
}
use posnk.Crt.Numfmt.Digits.{AreDigits, value, Converted, convert_lem}

-- What a caller finds in `str`: the padding, `m` characters that are the digits of the number, without a
-- 0 in front but for the number 0 itself, and a NUL. There are `w` characters: those of the number, or
-- as many as the width asks for.
pub record Formatted (base num width padding : ℕ) (str : Memory) (w m : ℕ) : Type 0 where
  pub some_digit : 0 < m
  pub wide : w ≡ (if ltb m width then width else m)
  pub padded : slice str 0 (w - m) ≡ slice (λ j. padding) 0 (w - m)
  pub all_digits : AreDigits base (slice str (w - m) m)
  pub denotes : value base 0 (slice str (w - m) m) ≡ num
  pub shortest : (m ≡ 1) ⊎ (str (w - m) ≢ 48)
  pub ended : str w ≡ 0

module _ (w str_len : ℕ) (buf str : Memory) where
  abbrev copied : Memory
  copied = put w 0 (copy str 0 buf (buf_size - w) w)

  copy_out-fits :
      w ≤ buf_size → w + 1 < str_len → str_len < 2 ^ 32 → copy_out w str_len buf str ≡ some copied
  unfolding copy_out
  copy_out-fits inside fits small = ground arith

  copied_at : (k : ℕ) → k < w → copied k ≡ buf (buf_size - w + k)
  unfolding copy
  copied_at k lt = ground arith

  -- The characters that are copied out behind an offset.
  copied-slice :
      (f : Memory) (i j n : ℕ)
      → i + n ≤ w
      → ((k : ℕ) → k < n → buf (buf_size - w + (i + k)) ≡ f (j + k))
      → slice copied i n ≡ slice f j n
  copied-slice f i j n inside same =
      slice-eq copied f i j n λ k lt. copied_at (i + k) (omega arith) ∙ same k lt

module _ (base num width padding n str_len : ℕ) (buf str : Memory) (m : ℕ) (buf' q : Memory)
    (c : Converted base num 1 n buf m buf') where
  -- A buffer that has the digits at its end and the padding before them.
  copied-Formatted :
      (w : ℕ)
      → w ≡ (if ltb m width then width else m)
      → m ≤ w
      → w ≤ buf_size
      → ((k : ℕ) → k < w - m → q (buf_size - w + k) ≡ padding)
      → ((k : ℕ) → k < m → q (buf_size - m + k) ≡ buf' (buf_size - m + k))
      → Formatted base num width padding (copied w str_len q str) w m
  copied-Formatted w wide le inside pads digits =
      let start : buf_size + 1 - (1 + m) ≡ buf_size - m = omega arith in
      let from : (k : ℕ) → buf_size - w + (w - m + k) ≡ buf_size - m + k = λ k. omega arith in
      let back : slice (copied w str_len q str) (w - m) m ≡ slice buf' (buf_size + 1 - (1 + m)) m =
        copied-slice w str_len q str buf' (w - m) (buf_size - m) m (omega arith)
          (λ k lt. ap q (from k) ∙ digits k lt)
        ∙ ap (λ i. slice buf' i m) (sym start) in
      let first : copied w str_len q str (w - m) ≡ buf' (buf_size + 1 - (1 + m)) =
        copied_at w str_len q str (w - m) (omega (arith, le, c.some_digit))
        ∙ ap q (omega (arith, le, inside))
        ∙ digits 0 c.some_digit
        ∙ ap buf' (omega (arith, start)) in
      record {
        some_digit = c.some_digit;
        wide = wide;
        padded =
            copied-slice w str_len q str (λ j. padding) 0 0 (w - m) (omega arith)
              (λ k lt. ap q (omega arith) ∙ pads k lt);
        all_digits = rw back c.all_digits;
        denotes = ap (value base 0) back ∙ c.denotes;
        shortest = elim c.shortest [ inl one ↦ inl one | inr ne ↦ inr (λ e. ne (sym first ∙ e)) ];
        ended = ground arith;
      }

module _ (base num flags width str_len n : ℕ) (buf str : Memory) (b : 2 ≤ base) (b' : base ≤ 16)
    (plain : (bit_and flags nf_sgnplus == 0) ≡ true) (inside : width < buf_size)
    (digits : num < base ^ n) (some_ : 0 < n) (room : n ≤ buf_size) (fits : width + n + 1 < str_len)
    (small : str_len < 2 ^ 32) where
  -- The character that the flags ask for.
  abbrev pub padding : ℕ
  padding = if bit_and flags nf_zeropad == 0 then 32 else 48

  -- Without NF_SGNPLUS, a number of at most `n` digits, where `n` is at most 33, is formatted in any base
  -- from 2 to 16 and any width below 33. The string has the digits of the number in the base, without a 0
  -- in front unless the number is 0, and before them, up to the width, zeros with NF_ZEROPAD and spaces
  -- without; it ends with a NUL. `n` rounds of the loop are enough.
  pub numfmt_unsigned_lem :
      (w : ℕ) × (m : ℕ) × (str' : Memory) × (numfmt_unsigned n num flags width base str_len buf str
        ≡ some str')
      × Formatted base num width padding str' w m
  unfolding numfmt_unsigned sign pad_to
  numfmt_unsigned_lem =
      let (m, buf', run, c) =
        convert_lem n n base num 1 buf (omega arith) b' digits some_ (omega arith) (omega arith) in
      let checked : (ltb base 2 || ltb 16 base || leb (2 ^ 31) width || leb buf_size width)
          ≡ false =
        ground arith in
      let count : 1 + m - 1 ≡ m = omega arith in
      elim (dec_lt m width) [
        | yes pads ↦
            let lt : ltb m width ≡ true = ground arith in
            let q = pad_to flags width m buf' in
            (
              width,
              m,
              copied width str_len q str,
              rw (checked, run, plain, count, lt)
                  (copy_out-fits width str_len q str (omega arith) (omega arith) small),
              copied-Formatted base num width padding n str_len buf str m buf' q c width
                  (rw lt refl) (omega arith) (omega arith) (λ k l. ground arith)
                  (λ k l. ground arith),
            )
        | no full ↦
            let lt : ltb m width ≡ false = ground arith in
            (
              m,
              m,
              copied m str_len buf' str,
              rw (checked, run, plain, count, lt)
                  (copy_out-fits m str_len buf' str (omega (arith, c.bounded))
                    (omega (arith, c.bounded)) small),
              copied-Formatted base num width padding n str_len buf str m buf' buf' c m (rw lt refl)
                  (omega arith) (omega (arith, c.bounded)) (λ k l. absurd (omega arith))
                  (λ k l. refl),
            )
      ]
