-- ===== src/Tests/Frames.antt =====
-- The physical frame allocator.
use posnk.Base.{
  ℕ, ◌*◌, ◌^◌, ◌<◌, ◌≡◌, ◌≢◌, refl, true, false, ◌&&◌, ◌==◌, ltb, leb, if◌then◌else◌, ◌⊎◌, arith,
}
use posnk.Kernel.Physmm.{
  Bitmap, physmm_page_size, physmm_no_frame, physmm_alloc_frame, physmm_free_frame,
}
use posnk.Kernel.Physmm.Frames.{is_free, physmm_alloc_frame_lem, physmm_free_frame-alloc}

-- Frames 36 to 47 are free.
abbrev twelve : Bitmap
twelve c b = c == 1 && leb 4 b && ltb b 16

physmm_alloc_frame_lem_example :
    ((physmm_alloc_frame twelve ≡ (physmm_no_frame, twelve))
      × ((g : ℕ) → g < 2 ^ 20 → is_free twelve g ≡ false))
    ⊎ ((f : ℕ) × (m' : Bitmap) × (physmm_alloc_frame twelve ≡ (f * physmm_page_size, m'))
        × (f < 2 ^ 20)
        × (is_free twelve f ≡ true)
        × ((g : ℕ) → g < f → is_free twelve g ≡ false)
        × ((g : ℕ) → g < 2 ^ 20 → is_free m' g ≡ (if g == f then false else is_free twelve g)))
physmm_alloc_frame_lem_example = physmm_alloc_frame_lem twelve

first_of_twelve : (physmm_alloc_frame twelve).0 ≡ 36 * physmm_page_size
unfolding physmm_alloc_frame
first_of_twelve = refl

first_of_twelve_there : (physmm_alloc_frame twelve).0 ≢ physmm_no_frame
first_of_twelve_there e = absurd (omega (arith, e, first_of_twelve))

physmm_free_frame-alloc_example :
    is_free (physmm_free_frame (physmm_alloc_frame twelve).0 (physmm_alloc_frame twelve).1) 36
    ≡ is_free twelve 36
physmm_free_frame-alloc_example =
    physmm_free_frame-alloc twelve first_of_twelve_there 36 (omega arith)
