-- ===== src/Crt/Numfmt/Digits.antt =====
-- The loop of numfmt_unsigned ends with the digits of the number.
use posnk.Base.{
  ℕ, zero, suc, ◌+◌, ◌-◌, ◌*◌, ◌/◌, ◌%◌, ◌^◌, ◌≤◌, ◌<◌, ◌≡◌, ◌≢◌, refl, sym, ap, ◌∙◌, Bool, true,
  false, ◌&&◌, ◌||◌, ◌==◌, ltb, leb, All, All-append, ◌⊎◌, if◌then◌else◌, some, List, [], ◌∷◌, ◌++◌,
  arith, Bool-cases, inl, inr, ==→eq, ==→ne,
}
use native.Mathlib.Nat.{mod-lt, div-lt_iff_lt-mul, pow-suc, pow-zero, mul_comm, zero-mul}
use native.Mathlib.Omega.{div_any}
use posnk.Base.Memory.{Memory, slice, slice-add}
use posnk.Crt.Numfmt.{buf_size, digit_char, put, convert}

-- The digit that a character stands for.
abbrev pub digit : ℕ → ℕ
digit c = if ltb c 58 then c - 48 else c - 55

-- Whether a character is a digit of the base: one of 0 to 9 and A to F that stands for less.
abbrev pub is_digit : (base c : ℕ) → Bool
is_digit base c = ((leb 48 c && ltb c 58) || (leb 65 c && ltb c 71)) && ltb (digit c) base

-- A string of digits.
abbrev pub AreDigits : (base : ℕ) → List ℕ → Type 0
AreDigits base cs = All (λ (c : ℕ). is_digit base c ≡ true) cs

is_digit-digit_char : (base d : ℕ) → base ≤ 16 → d < base → is_digit base (digit_char d) ≡ true
is_digit-digit_char base d le lt = ground arith

-- Only 0 is written as the character 0.
digit_char-zero : (d : ℕ) → digit_char d ≡ 48 → d ≡ 0
digit_char-zero d e = ground arith

-- The number that a string of digits stands for, after those that give `acc`.
unfoldable pub value : (base acc : ℕ) → List ℕ → ℕ
value base acc [] = acc
value base acc (c ∷ cs) = value base (acc * base + digit c) cs

value-snoc :
    (base acc : ℕ) (cs : List ℕ) (c : ℕ)
    → value base acc (cs ++ (c ∷ [])) ≡ value base acc cs * base + digit c
unfolding value
value-snoc base acc [] c = refl
value-snoc base acc (x ∷ cs) c = value-snoc base (acc * base + digit x) cs c

digit-digit_char : (d : ℕ) → digit (digit_char d) ≡ d
digit-digit_char d = ground arith

quotient_bound : (num base n : ℕ) → 0 < base → num < base ^ suc n → num / base < base ^ n
quotient_bound num base n pos lt = (div-lt_iff_lt-mul pos).1 (rw (pow-suc base n) at lt)

-- A number that is not 0 has a digit.
nonzero_power : (num base n : ℕ) → num ≢ 0 → num < base ^ n → 0 < n
nonzero_power num base zero there lt = absurd (omega (arith, there, (rw (pow-zero base) at lt)))
nonzero_power num base (suc n) there lt = omega arith

-- What the loop has done when it ends: `m` characters before the earlier ones.
pub record Converted (base num pos n : ℕ) (buf : Memory) (m : ℕ) (buf' : Memory) : Type 0 where
  pub some_digit : 0 < m
  pub bounded : m ≤ n
  pub denotes : value base 0 (slice buf' (buf_size + 1 - (pos + m)) m) ≡ num
  pub all_digits : AreDigits base (slice buf' (buf_size + 1 - (pos + m)) m)
  pub shortest : (m ≡ 1) ⊎ (buf' (buf_size + 1 - (pos + m)) ≢ 48)
  pub nonzero : num ≢ 0 → buf' (buf_size + 1 - (pos + m)) ≢ 48
  pub behind : (j : ℕ) → buf_size - pos < j → buf' j ≡ buf j

module _ (base num pos : ℕ) (buf : Memory) where
  -- The buffer with the last digit.
  abbrev with_digit : Memory
  with_digit = put (buf_size - pos) (digit_char (num % base)) buf

  last_digit : num / base ≡ 0 → num % base ≡ num
  last_digit e =
      let whole : base * (num / base) + num % base ≡ num = div_any num base in
      omega (arith, (rw e at whole))

  with_digit-there : with_digit (buf_size - pos) ≡ digit_char (num % base)
  with_digit-there = ground arith

  zero_first : (d : ℕ) → 0 * base + d ≡ d
  zero_first d = rw (zero-mul base) (omega arith)

  with_digit-is_digit : 0 < base → base ≤ 16 → is_digit base (digit_char (num % base)) ≡ true
  with_digit-is_digit b b' = is_digit-digit_char base (num % base) b' (mod-lt num b)

  convert-last :
      (n : ℕ)
      → 0 < base
      → base ≤ 16
      → num / base ≡ 0
      → pos ≤ buf_size
      → 0 < n
      → Converted base num pos n buf 1 with_digit
  unfolding value slice
  convert-last n b b' last room some_ =
      let at_end : buf_size + 1 - (pos + 1) ≡ buf_size - pos = omega arith in
      let only : with_digit (buf_size + 1 - (pos + 1)) ≡ digit_char num =
        ap with_digit at_end ∙ with_digit-there ∙ ap digit_char (last_digit last) in
      record {
        some_digit = omega arith;
        bounded = omega arith;
        denotes =
            rw (at_end, with_digit-there)
              (ap (λ d. 0 * base + d) (digit-digit_char (num % base) ∙ last_digit last)
                ∙ zero_first num);
        all_digits = rw (at_end, with_digit-there) (with_digit-is_digit b b', tt);
        shortest = inl refl;
        nonzero = λ there e. there (digit_char-zero num (sym only ∙ e));
        behind = λ j lt. ground arith;
      }

  untouched : (j : ℕ) → buf_size - pos < j → with_digit j ≡ buf j
  untouched j lt = ground arith

  convert-more :
      (n m : ℕ) (buf' : Memory)
      → 0 < base
      → base ≤ 16
      → num / base ≢ 0
      → pos < buf_size
      → pos + 1 + m ≤ buf_size + 1
      → Converted base (num / base) (pos + 1) n with_digit m buf'
      → Converted base num pos (suc n) buf (m + 1) buf'
  unfolding slice
  convert-more n m buf' b b' more room fits c =
      let start : buf_size + 1 - (pos + (m + 1)) ≡ buf_size + 1 - (pos + 1 + m) = omega arith in
      let stop : buf_size + 1 - (pos + 1 + m) + m ≡ buf_size - pos = omega arith in
      let this : buf' (buf_size - pos) ≡ digit_char (num % base) =
        c.behind (buf_size - pos) (omega arith) ∙ with_digit-there in
      record {
        some_digit = omega arith;
        bounded = omega (arith, c.bounded);
        denotes =
            rw (start, slice-add buf' (buf_size + 1 - (pos + 1 + m)) m 1, stop, this)
              (value-snoc base 0 (slice buf' (buf_size + 1 - (pos + 1 + m)) m) _
                ∙ rw (c.denotes, digit-digit_char (num % base))
                    (ap (λ t. t + num % base) (mul_comm (num / base) base) ∙ div_any num base));
        all_digits =
            rw (start, slice-add buf' (buf_size + 1 - (pos + 1 + m)) m 1, stop, this)
              (All-append (λ (x : ℕ). is_digit base x ≡ true)
                (slice buf' (buf_size + 1 - (pos + 1 + m)) m) (digit_char (num % base) ∷ [])
                c.all_digits (with_digit-is_digit b b', tt));
        shortest = inr (λ e. c.nonzero more (ap buf' (sym start) ∙ e));
        nonzero = λ there e. c.nonzero more (ap buf' (sym start) ∙ e);
        behind = λ j lt. c.behind j (omega arith) ∙ untouched j (omega arith);
      }

-- With a base from 1 to 16, a number of at most `n` digits, and room and fuel for `n` of them, the
-- loop ends, and the characters that it has put before the earlier ones are the digits of the number.
pub convert_lem :
    (n fuel base num pos : ℕ) (buf : Memory)
    → 0 < base
    → base ≤ 16
    → num < base ^ n
    → 0 < n
    → n ≤ fuel
    → pos + n ≤ buf_size + 1
    → (m : ℕ) × (buf' : Memory) × (convert fuel base num pos buf ≡ some (pos + m, buf'))
      × Converted base num pos n buf m buf'
unfolding convert
convert_lem zero fuel base num pos buf b b' small some_ enough room = absurd (omega arith)
convert_lem (suc n) zero base num pos buf b b' small some_ enough room = absurd (omega arith)
convert_lem (suc n) (suc k) base num pos buf b b' small some_ enough room =
    let inside : ltb buf_size pos ≡ false = ground arith in
    elim (Bool-cases (num / base == 0)) [
      | inl last ↦ (
        1,
        with_digit base num pos buf,
        rw (inside, last),
        convert-last base num pos buf (suc n) b b' (==→eq _ _ last) (omega arith) some_,
      )
      | inr more ↦
          let less = quotient_bound num base n b small in
          let left : 0 < n = nonzero_power (num / base) base n (==→ne _ _ more) less in
          let (m, buf', run, c) =
            convert_lem n k base (num / base) (pos + 1) (with_digit base num pos buf) b b' less left
              (omega arith) (omega arith) in
          (
            m + 1,
            buf',
            rw (inside, more) (run ∙ ap (λ p. some (p, buf')) (omega arith)),
            convert-more base num pos buf n m buf' b b' (==→ne _ _ more) (omega arith)
                (omega (arith, c.bounded, room)) c,
          )
    ]
