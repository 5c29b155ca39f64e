-- ===== src/Kernel/Physmm/Frames.antt =====
-- What the allocators promise, in frames: frame f is at address f * 4096.
use posnk.Base.{
  ℕ, ◌+◌, ◌*◌, ◌/◌, ◌%◌, ◌^◌, ◌<◌, ◌≡◌, ◌≢◌, sym, ap, ◌∙◌, Bool, true, false, ◌&&◌, ◌==◌, none,
  some, arith, if◌then◌else◌, inl, inr, Bool-cases, ◌⊎◌, ==→eq,
}
use posnk.Kernel.Physmm.{
  Word, Bitmap, physmm_page_size, physmm_no_frame, physmm_bitmap_size, write_bit, physmm_clear_bit,
  physmm_free_frame, first_bit, search, frame_address, physmm_alloc_frame,
}
use posnk.Kernel.Physmm.Search.{
  IsFirst, NoBit, first_bit_lem, is_zero_lem, Passed, Found, search_lem,
}

abbrev pub is_free : Bitmap → ℕ → Bool
is_free m f = m (f / 2 ^ 5) (f % 2 ^ 5)

-- A frame is the one of an address exactly if its word and its bit are.
same_bit :
    (f g : ℕ)
    → f < 2 ^ 20
    → g < 2 ^ 20
    → (g / 2 ^ 5 == (f * 2 ^ 12 / 2 ^ 12 / 2 ^ 5) % 2 ^ 15
        && g % 2 ^ 5 == f * 2 ^ 12 / 2 ^ 12 % 2 ^ 5)
      ≡ (g == f)
same_bit f g lt lt' =
    let page : f * 2 ^ 12 / 2 ^ 12 ≡ f = omega arith in
    let word : (f / 2 ^ 5) % 2 ^ 15 ≡ f / 2 ^ 5 = omega arith in rw (page, word) (ground arith)

-- What clearing and setting the bit of a frame do to the frames.
pub write_bit_lem :
    (v : Bool) (f g : ℕ) (m : Bitmap)
    → f < 2 ^ 20
    → g < 2 ^ 20
    → is_free (write_bit v (f * 2 ^ 12) m) g ≡ (if g == f then v else is_free m g)
unfolding write_bit
write_bit_lem v f g m lt lt' = ap (λ b. if b then v else is_free m g) (same_bit f g lt lt')

-- The frames before bit `b` of word `c` are claimed.
claimed_before :
    (m : Bitmap) (c b : ℕ)
    → IsFirst (m c) 0 32 b
    → ((k : ℕ) → k < c → NoBit (m k) 0 32)
    → (g : ℕ) → g < c * 2 ^ 5 + b
    → is_free m g ≡ false
claimed_before m c b first before g lt = elim (Bool-cases (g / 2 ^ 5 == c)) [
  | inl e ↦
      let same = ==→eq (g / 2 ^ 5) c e in
      rw same (first.least (g % 2 ^ 5) (omega arith) (omega (arith, same, first.below)))
  | inr e ↦ before (g / 2 ^ 5) (ground (arith, first.below)) (g % 2 ^ 5) (omega arith) (omega arith)
]

-- A search for the first bit finds nothing only in words without one.
Passed-NoBit : (w : Word) → Passed (first_bit 32 0) w → NoBit w 0 32
Passed-NoBit w (inl zero_word) = elim (is_zero_lem w) [
  | inl (_, nowhere) ↦ nowhere
  | inr e ↦ absurd (cc (zero_word, e))
]
Passed-NoBit w (inr miss) = elim (first_bit_lem 32 0 w) [
  | inl (_, nowhere) ↦ nowhere
  | inr (j, run, f) ↦ absurd (cc (miss, run))
]

hit-IsFirst : (w : Word) (b : ℕ) → first_bit 32 0 w ≡ some b → IsFirst w 0 32 b
hit-IsFirst w b hit = elim (first_bit_lem 32 0 w) [
  | inl (run, nowhere) ↦ absurd (cc (hit, run))
  | inr (j, run, f) ↦ let same : j ≡ b = cc (hit, run) in rw (← same) f
]

alloc_frame-none :
    (m : Bitmap)
    → search (first_bit 32 0) physmm_bitmap_size 0 m ≡ none
    → physmm_alloc_frame m ≡ (physmm_no_frame, m)
unfolding physmm_alloc_frame
alloc_frame-none m run =
    ap
      (λ o. elim o as (λ o. ℕ × Bitmap) [
        | none ↦ (physmm_no_frame, m)
        | some (c, b) ↦ (frame_address c b, physmm_clear_bit (frame_address c b) m)
      ])
      run

alloc_frame-some :
    (m : Bitmap) (c b : ℕ)
    → search (first_bit 32 0) physmm_bitmap_size 0 m ≡ some (c, b)
    → physmm_alloc_frame m ≡ (frame_address c b, physmm_clear_bit (frame_address c b) m)
unfolding physmm_alloc_frame
alloc_frame-some m c b run =
    ap
      (λ o. elim o as (λ o. ℕ × Bitmap) [
        | none ↦ (physmm_no_frame, m)
        | some (c, b) ↦ (frame_address c b, physmm_clear_bit (frame_address c b) m)
      ])
      run

-- The first free frame of all is claimed, and its address is returned; with none free, nothing is
-- changed, and PHYSMM_NO_FRAME is returned.
pub physmm_alloc_frame_lem :
    (m : Bitmap)
    → ((physmm_alloc_frame m ≡ (physmm_no_frame, m)) × ((g : ℕ) → g < 2 ^ 20 → is_free m g ≡ false))
      ⊎ ((f : ℕ) × (m' : Bitmap) × (physmm_alloc_frame m ≡ (f * physmm_page_size, m'))
          × (f < 2 ^ 20)
          × (is_free m f ≡ true)
          × ((g : ℕ) → g < f → is_free m g ≡ false)
          × ((g : ℕ) → g < 2 ^ 20 → is_free m' g ≡ (if g == f then false else is_free m g)))
unfolding Found
physmm_alloc_frame_lem m = elim (search_lem (first_bit 32 0) physmm_bitmap_size 0 m) [
  | inl (run, all) ↦ inl (
    alloc_frame-none m run,
    λ g lt.
        Passed-NoBit (m (g / 2 ^ 5)) (all (g / 2 ^ 5) (omega arith) (omega arith)) (g % 2 ^ 5)
          (omega arith) (omega arith),
  )
  | inr (c, b, run, h) ↦
      let first = hit-IsFirst (m c) b h.hit in
      let address : frame_address c b ≡ (c * 2 ^ 5 + b) * 2 ^ 12 =
        omega (arith, h.below, first.below) in
      let small : c * 2 ^ 5 + b < 2 ^ 20 = omega (arith, h.below, first.below) in
      let word : (c * 2 ^ 5 + b) / 2 ^ 5 ≡ c = omega (arith, first.below) in
      let bit : (c * 2 ^ 5 + b) % 2 ^ 5 ≡ b = omega (arith, first.below) in
      inr (
        c * 2 ^ 5 + b,
        physmm_clear_bit ((c * 2 ^ 5 + b) * 2 ^ 12) m,
        alloc_frame-some m c b run ∙ ap (λ a. (a, physmm_clear_bit a m)) address,
        small,
        rw (word, bit) first.is_set,
        claimed_before m c b first λ k lt. Passed-NoBit (m k) (h.before k (omega arith) lt),
        λ g lt. write_bit_lem false (c * 2 ^ 5 + b) g m small lt,
      )
]

-- Freeing the frame that was allocated gives the bitmap back, frame by frame.
pub physmm_free_frame-alloc :
    (m : Bitmap)
    → (physmm_alloc_frame m).0 ≢ physmm_no_frame
    → (g : ℕ) → g < 2 ^ 20
    → is_free (physmm_free_frame (physmm_alloc_frame m).0 (physmm_alloc_frame m).1) g ≡ is_free m g
physmm_free_frame-alloc m got g lt = elim (physmm_alloc_frame_lem m) [
  | inl (run, _) ↦ absurd (got (rw run))
  | inr (f, m', run, small, free, _, rest) ↦ rw run (
      write_bit_lem true f g m' small lt ∙ elim (Bool-cases (g == f)) [
        | inl e ↦ let same = ==→eq g f e in rw e (sym (rw (← same) at free))
        | inr e ↦ rw e (rest g lt ∙ rw e)
      ])
]
