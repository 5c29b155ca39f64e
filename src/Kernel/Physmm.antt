-- ===== src/Kernel/Physmm.antt =====
-- kernel/mm/physmm.c: the physical frame allocator. Of the bitmap, an array of 32768 words, a word
-- is its 32 bits, the lowest first; a set bit is a free frame. `physaddr_t` has 32 bits.
pub mod Search
pub mod Frames
pub mod Quads
use posnk.Base.{
  ℕ, zero, suc, ◌+◌, ◌*◌, ◌/◌, ◌%◌, ◌^◌, Bool, true, false, ◌&&◌, ◌==◌, not, ltb, leb,
  if◌then◌else◌, Option, none, some,
}

abbrev pub Word : Type 0
Word = ℕ → Bool

abbrev pub Bitmap : Type 0
Bitmap = ℕ → Word

-- PHYSMM_BITMAP_SIZE, PHYSMM_PAGE_SIZE and PHYSMM_NO_FRAME.
abbrev pub physmm_bitmap_size : ℕ
physmm_bitmap_size = 32768

abbrev pub physmm_page_size : ℕ
physmm_page_size = 4096

abbrev pub physmm_no_frame : ℕ
physmm_no_frame = 1

-- One bit of the word of an address is written.
unfoldable pub write_bit : Bool → ℕ → Bitmap → Bitmap
write_bit v address m c b =
    let page = address / 2 ^ 12 in
    if c == (page / 2 ^ 5) % 2 ^ 15 && b == page % 2 ^ 5 then v else m c b

abbrev pub physmm_set_bit : ℕ → Bitmap → Bitmap
physmm_set_bit address m = write_bit true address m

abbrev pub physmm_clear_bit : ℕ → Bitmap → Bitmap
physmm_clear_bit address m = write_bit false address m

abbrev pub physmm_free_frame : ℕ → Bitmap → Bitmap
physmm_free_frame address m = physmm_set_bit address m

abbrev pub physmm_init : Bitmap
physmm_init c b = false

-- The loop over the pages of a range; the counter wraps around. `none`: out of fuel.
unfoldable pub each_page : (ℕ → Bitmap → Bitmap) → ℕ → (counter end : ℕ) → Bitmap → Option Bitmap
each_page f zero counter end m = none
each_page f (suc k) counter end m =
    let rest = each_page f k ((counter + physmm_page_size) % 2 ^ 32) end (f counter m) in
    if ltb counter end then rest else some m

-- `none` is also a failed assertion.
unfoldable pub physmm_free_range : ℕ → (start end : ℕ) → Bitmap → Option Bitmap
unfolding each_page
physmm_free_range fuel start end m =
    if ltb start end then each_page physmm_free_frame fuel start end m else none

unfoldable pub physmm_claim_range : ℕ → (start end : ℕ) → Bitmap → Option Bitmap
unfolding each_page
physmm_claim_range fuel start end m =
    if ltb start end then each_page physmm_clear_bit fuel start end m else none

-- The first of `n` bits from `b` on that is set.
unfoldable pub first_bit : ℕ → ℕ → Word → Option ℕ
first_bit zero b w = none
first_bit (suc n) b w = let rest = first_bit n (b + 1) w in if w b then some b else rest

-- `word == 0`.
unfoldable pub is_zero : Word → Bool
unfolding first_bit
is_zero w = elim (first_bit 32 0 w) [ none ↦ true | some _ ↦ false ]

-- The loop over `n` words from `c` on, which passes words that are 0, with a loop over the bits of
-- the others.
unfoldable pub search : (Word → Option ℕ) → ℕ → ℕ → Bitmap → Option (ℕ × ℕ)
unfolding is_zero
search bits zero c m = none
search bits (suc n) c m =
    let rest = search bits n (c + 1) m in
    if is_zero (m c) then rest else elim (bits (m c)) [ none ↦ rest | some b ↦ some (c, b) ]

-- `counter <<= 5; counter |= bit_counter; counter <<= 12`.
abbrev pub frame_address : ℕ → ℕ → ℕ
frame_address c b = ((c * 2 ^ 5 + b) * 2 ^ 12) % 2 ^ 32

unfoldable pub physmm_alloc_frame : Bitmap → ℕ × Bitmap
unfolding search
physmm_alloc_frame m = elim (search (first_bit 32 0) physmm_bitmap_size 0 m) [
  | none ↦ (physmm_no_frame, m)
  | some (c, b) ↦ (frame_address c b, physmm_clear_bit (frame_address c b) m)
]

-- Bits of `word & (0xF << b)`, `n` of them from `k` on, are those of 0xF.
unfoldable pub masked_is_f : ℕ → ℕ → ℕ → Word → Bool
masked_is_f zero k b w = true
masked_is_f (suc n) k b w =
    let rest = masked_is_f n (k + 1) b w in
    let bit = w k && leb b k && ltb k (b + 4) in (if bit then ltb k 4 else not (ltb k 4)) && rest

-- `(word & (0xF << b)) == 0xF`.
unfoldable pub is_quad : ℕ → Word → Bool
unfolding masked_is_f
is_quad b w = masked_is_f 32 0 b w

-- The loop over the bits in steps of 4: `n` steps from `b` on.
unfoldable pub first_quad : ℕ → ℕ → Word → Option ℕ
unfolding is_quad
first_quad zero b w = none
first_quad (suc n) b w = let rest = first_quad n (b + 4) w in if is_quad b w then some b else rest

abbrev pub clear_quad : ℕ → Bitmap → Bitmap
clear_quad a m = physmm_clear_bit (a + 3 * physmm_page_size) (
    physmm_clear_bit (a + 2 * physmm_page_size)
      (physmm_clear_bit (a + 1 * physmm_page_size) (physmm_clear_bit a m)))

unfoldable pub physmm_alloc_quadframe : Bitmap → ℕ × Bitmap
unfolding search first_quad
physmm_alloc_quadframe m = elim (search (first_quad 8 0) physmm_bitmap_size 0 m) [
  | none ↦ (physmm_no_frame, m)
  | some (c, b) ↦ (frame_address c b, clear_quad (frame_address c b) m)
]

-- `word != 0xFFFFFFFF`: a bit is 0.
unfoldable pub is_full_word : Word → Bool
unfolding is_zero
is_full_word w = is_zero λ b. not (w b)

-- The first word, of `n` from `c` on, whose frames are all free, is claimed.
unfoldable pub full_word : ℕ → ℕ → Bitmap → Option ℕ
unfolding is_full_word
full_word zero c m = none
full_word (suc n) c m =
    let rest = full_word n (c + 1) m in if is_full_word (m c) then some c else rest

unfoldable pub physmm_alloc_bmcopy : Bitmap → ℕ × Bitmap
unfolding full_word
physmm_alloc_bmcopy m = elim (full_word physmm_bitmap_size 0 m) [
  | none ↦ (physmm_no_frame, m)
  | some c ↦ ((c * 2 ^ 17) % 2 ^ 32, λ c' b. if c' == c then false else m c' b)
]

-- The free bytes among `n` bits of a word, and in `n` words; a word that is 0 is passed.
unfoldable pub count_bits : ℕ → ℕ → Word → ℕ
count_bits zero b w = 0
count_bits (suc n) b w = (if w b then physmm_page_size else 0) + count_bits n (b + 1) w

unfoldable pub count_words : ℕ → ℕ → Bitmap → ℕ
unfolding is_zero count_bits
count_words zero c m = 0
count_words (suc n) c m =
    (if is_zero (m c) then 0 else count_bits 32 0 (m c)) + count_words n (c + 1) m

unfoldable pub physmm_count_free : Bitmap → ℕ
unfolding count_words
physmm_count_free m = count_words physmm_bitmap_size 0 m % 2 ^ 32
