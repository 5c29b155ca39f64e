-- ===== src/Kernel/Physmm/Quads.antt =====
-- What physmm_alloc_quadframe returns.
use posnk.Base.{
  ℕ, zero, suc, ◌+◌, ◌*◌, ◌/◌, ◌%◌, ◌^◌, ◌≤◌, ◌<◌, ◌≡◌, ap, ◌∙◌, true, false, ◌&&◌, ◌==◌, ltb, leb,
  none, some, arith, if◌then◌else◌, inl, inr, Bool-cases, ◌⊎◌, ==→eq,
}
use posnk.Kernel.Physmm.{
  Word, Bitmap, physmm_no_frame, physmm_bitmap_size, masked_is_f, is_quad, first_quad, search,
  frame_address, clear_quad, physmm_clear_bit, physmm_page_size, physmm_alloc_quadframe,
}
use posnk.Kernel.Physmm.Search.{Found, search_lem}
use posnk.Kernel.Physmm.Frames.{is_free, write_bit_lem}

masked_is_f_lem :
    (n k b : ℕ) (w : Word)
    → masked_is_f n k b w ≡ true
    → (j : ℕ) → k ≤ j
    → j < k + n
    → (w j && leb b j && ltb j (b + 4)) ≡ ltb j 4
unfolding masked_is_f
masked_is_f_lem zero k b w h j le lt = absurd (omega arith)
masked_is_f_lem (suc n) k b w h j le lt = elim (Bool-cases (j == k)) [
  | inl e ↦ let same = ==→eq j k e in rw same (ground (arith, h))
  | inr e ↦
      masked_is_f_lem n (k + 1) b w (ground (arith, h)) j (ground (arith, e, le)) (omega arith)
]

-- Only the lowest four bits of a word are ever taken for four free frames.
is_quad-zero : (b : ℕ) (w : Word) → is_quad b w ≡ true → (b ≡ 0) × ((j : ℕ) → j < 4 → w j ≡ true)
unfolding is_quad
is_quad-zero b w h =
    let low = masked_is_f_lem 32 0 b w h in
    let start : b ≡ 0 = ground (arith, low 0 (omega arith) (omega arith)) in
    (start, λ j lt. ground (arith, low j (omega arith) (omega arith), lt))

first_quad_lem : (n b j : ℕ) (w : Word) → first_quad n b w ≡ some j → is_quad j w ≡ true
unfolding first_quad
first_quad_lem zero b j w h = absurd (cc h)
first_quad_lem (suc n) b j w h = elim (Bool-cases (is_quad b w)) [
  | inl e ↦ let same : b ≡ j = ground (arith, h, e) in rw (← same) e
  | inr e ↦ first_quad_lem n (b + 4) j w (rw e at h)
]

clear_at :
    (c i g : ℕ) (m : Bitmap)
    → c < 2 ^ 15
    → i < 4
    → g < 2 ^ 20
    → is_free (physmm_clear_bit (c * 2 ^ 5 * 2 ^ 12 + i * physmm_page_size) m) g
      ≡ (if g == c * 2 ^ 5 + i then false else is_free m g)
clear_at c i g m lt lt' lt'' =
    let address : c * 2 ^ 5 * 2 ^ 12 + i * physmm_page_size ≡ (c * 2 ^ 5 + i) * 2 ^ 12 =
      omega arith in
    ap (λ a. is_free (physmm_clear_bit a m) g) address
    ∙ write_bit_lem false (c * 2 ^ 5 + i) g m (omega arith) lt''

clear_quad_lem :
    (c g : ℕ) (m : Bitmap)
    → c < 2 ^ 15
    → g < 2 ^ 20
    → is_free (clear_quad (c * 2 ^ 5 * 2 ^ 12) m) g
      ≡ (if leb (c * 2 ^ 5) g && ltb g (c * 2 ^ 5 + 4) then false else is_free m g)
clear_quad_lem c g m lt lt' =
    let a = c * 2 ^ 5 * 2 ^ 12 in
    let m₀ = physmm_clear_bit a m in
    let m₁ = physmm_clear_bit (a + 1 * physmm_page_size) m₀ in
    let m₂ = physmm_clear_bit (a + 2 * physmm_page_size) m₁ in
    let e₀ = write_bit_lem false (c * 2 ^ 5) g m (omega arith) lt' in
    let e₁ = clear_at c 1 g m₀ lt (omega arith) lt' in
    let e₂ = clear_at c 2 g m₁ lt (omega arith) lt' in
    let e₃ = clear_at c 3 g m₂ lt (omega arith) lt' in rw (e₃, e₂, e₁, e₀) (ground arith)

alloc_quadframe-none :
    (m : Bitmap)
    → search (first_quad 8 0) physmm_bitmap_size 0 m ≡ none
    → physmm_alloc_quadframe m ≡ (physmm_no_frame, m)
unfolding physmm_alloc_quadframe
alloc_quadframe-none m run =
    ap
      (λ o. elim o as (λ o. ℕ × Bitmap) [
        | none ↦ (physmm_no_frame, m)
        | some (c, b) ↦ (frame_address c b, clear_quad (frame_address c b) m)
      ])
      run

alloc_quadframe-some :
    (m : Bitmap) (c b : ℕ)
    → search (first_quad 8 0) physmm_bitmap_size 0 m ≡ some (c, b)
    → physmm_alloc_quadframe m ≡ (frame_address c b, clear_quad (frame_address c b) m)
unfolding physmm_alloc_quadframe
alloc_quadframe-some m c b run =
    ap
      (λ o. elim o as (λ o. ℕ × Bitmap) [
        | none ↦ (physmm_no_frame, m)
        | some (c, b) ↦ (frame_address c b, clear_quad (frame_address c b) m)
      ])
      run

-- If physmm_alloc_quadframe changes the bitmap, it claims exactly four free frames, the first four
-- of a word, and returns their address: four free frames elsewhere in a word are never taken.
pub physmm_alloc_quadframe_lem :
    (m : Bitmap)
    → (physmm_alloc_quadframe m ≡ (physmm_no_frame, m))
      ⊎ ((c : ℕ) × (m' : Bitmap) × (physmm_alloc_quadframe m ≡ (c * 2 ^ 17, m'))
          × (c < physmm_bitmap_size)
          × ((i : ℕ) → i < 4 → is_free m (c * 2 ^ 5 + i) ≡ true)
          × ((g : ℕ)
              → g < 2 ^ 20
              → is_free m' g
                ≡ (if leb (c * 2 ^ 5) g && ltb g (c * 2 ^ 5 + 4) then false else is_free m g)))
unfolding Found
physmm_alloc_quadframe_lem m = elim (search_lem (first_quad 8 0) physmm_bitmap_size 0 m) [
  | inl (run, _) ↦ inl (alloc_quadframe-none m run)
  | inr (c, b, run, h) ↦
      let (start, free) = is_quad-zero b (m c) (first_quad_lem 8 0 b (m c) h.hit) in
      let address : frame_address c b ≡ c * 2 ^ 5 * 2 ^ 12 = omega (arith, h.below, start) in
      inr (
        c,
        clear_quad (c * 2 ^ 5 * 2 ^ 12) m,
        alloc_quadframe-some m c b run
            ∙ ap (λ a. (a, clear_quad a m)) address
            ∙ ap (λ (a : ℕ). (a, clear_quad (c * 2 ^ 5 * 2 ^ 12) m)) (omega arith),
        h.below,
        λ i lt.
            let word : (c * 2 ^ 5 + i) / 2 ^ 5 ≡ c = omega arith in
            let bit : (c * 2 ^ 5 + i) % 2 ^ 5 ≡ i = omega arith in rw (word, bit) (free i lt),
        λ g lt. clear_quad_lem c g m h.below lt,
      )
]
