-- ===== src/Crt/String/Copies.antt =====
-- What memset and memcpy leave in memory.
use posnk.Base.{
  ℕ, ◌+◌, ◌-◌, ◌*◌, ◌/◌, ◌%◌, ◌^◌, ◌≤◌, ◌<◌, ◌≡◌, ◌≢◌, ◌∙◌, true, false, ◌==◌, ltb, leb, ◌&&◌,
  arith, ◌⊎◌, inl, inr, ap, Bool-cases,
}
use posnk.Base.Memory.{Memory, copy}
use posnk.Crt.String.{
  misalignment, head_size, fill_bytes, fill_words, copy_bytes, copy_words, copy_rest, memset,
  memcpy,
}
use posnk.Crt.String.Blocks.{
  store_copy, filled, fill_bytes_lem, fill_words_lem, Disjoint, copy_bytes_lem, copy_words_lem,
}

head_size_lem : (nmisa num : ℕ) → head_size nmisa num ≤ num
unfolding head_size
head_size_lem nmisa num = ground arith

-- memset writes the low byte of its value to exactly the bytes of the block, whatever the alignment
-- of the block.
pub memset_lem :
    (ptr value num : ℕ) (mem : Memory) (i : ℕ)
    → memset ptr value num mem i ≡ filled ptr num (value % 2 ^ 8) mem i
unfolding memset
memset_lem ptr value num mem i =
    let h = head_size (misalignment ptr) num in
    let nint = (num - h) / 4 in
    let le = head_size_lem (misalignment ptr) num in
    let v = value % 2 ^ 8 in
    let m₁ = fill_bytes h ptr v mem in
    let m₂ = fill_words nint (ptr + h) v m₁ in
    fill_bytes_lem ((num - h) % 4) (ptr + h + 4 * nint) v m₂ i
    ∙ rw (fill_words_lem nint (ptr + h) v m₁ i, fill_bytes_lem h ptr v mem i) (ground (arith, le))

copy_rest_lem :
    (p s num : ℕ) (mem : Memory) (i : ℕ)
    → Disjoint p s num
    → copy_rest p s num mem i ≡ copy mem p mem s num i
unfolding copy_rest
copy_rest_lem p s num mem i d =
    let nint = num / 4 in
    copy_bytes_lem (num % 4) (p + 4 * nint) (s + 4 * nint) (copy_words nint p s mem) i
      (ground (arith, d))
    ∙ store_copy (4 * nint) (num % 4) p s mem (copy_words nint p s mem) i (ground (arith, d))
        (λ j. copy_words_lem nint p s mem j (ground (arith, d)))
    ∙ ap (λ n. copy mem p mem s n i) (omega arith)

-- Both blocks are aligned alike.
memcpy_alike :
    (destination source num h : ℕ) (mem : Memory) (i : ℕ)
    → destination % 4 ≡ source % 4
    → head_size (misalignment destination) num ≡ h
    → Disjoint destination source num
    → h ≤ num
    → memcpy destination source num mem i
      ≡ copy
          (copy_bytes h destination source mem)
          (destination + h)
          (copy_bytes h destination source mem)
          source
          (num - h)
          i
unfolding memcpy
memcpy_alike destination source num h mem i alike head d le =
    let same : (misalignment destination == misalignment source) ≡ true = ground (arith, alike) in
    rw (same, head)
      (copy_rest_lem (destination + h) source (num - h) (copy_bytes h destination source mem) i
        (ground (arith, d, le)))

copy-none : (m : Memory) (d s n i : ℕ) → n ≡ 0 → copy m d m s n i ≡ m i
unfolding copy
copy-none m d s n i e =
    let outside : (leb d i && ltb i (d + n)) ≡ false = ground (arith, e) in rw outside

copy_outside : (m : Memory) (d s n i : ℕ) → (i < d) ⊎ (d + n ≤ i) → copy m d m s n i ≡ m i
unfolding copy
copy_outside m d s n i out =
    let outside : (leb d i && ltb i (d + n)) ≡ false = ground (arith, out) in rw outside

copy_inside : (m : Memory) (d s n k : ℕ) → k < n → copy m d m s n (d + k) ≡ m (s + k)
unfolding copy
copy_inside m d s n k lt =
    let inside : (leb d (d + k) && ltb (d + k) (d + n)) ≡ true = ground (arith, lt) in
    rw inside (ap m (omega arith))

-- memcpy between blocks that do not overlap copies all bytes and writes no others, if the
-- destination is aligned to a word or the two blocks are not aligned alike.
pub memcpy_lem :
    (destination source num : ℕ) (mem : Memory) (i : ℕ)
    → Disjoint destination source num
    → (destination % 4 ≡ 0) ⊎ (destination % 4 ≢ source % 4)
    → memcpy destination source num mem i ≡ copy mem destination mem source num i
unfolding memcpy head_size copy_bytes
memcpy_lem destination source num mem i d (inr differ) =
    let other : (misalignment destination == misalignment source) ≡ false =
      ground (arith, differ) in
    rw other (copy_bytes_lem num destination source mem i d)
memcpy_lem destination source num mem i d (inl aligned) =
    elim (Bool-cases (misalignment destination == misalignment source)) [
      | inr e ↦ rw e (copy_bytes_lem num destination source mem i d)
      | inl e ↦
          let alike : destination % 4 ≡ source % 4 = ground (arith, e) in
          elim (Bool-cases (ltb num 4)) [
            | inl short ↦
                memcpy_alike destination source num num mem i alike
                  (ground (arith, aligned, short, head_size)) d (omega arith)
                ∙ copy-none (copy_bytes num destination source mem) (destination + num) source
                    (num - num) i (omega arith)
                ∙ copy_bytes_lem num destination source mem i d
            | inr long ↦
                let start : destination + 0 ≡ destination = omega arith in
                let all : num - 0 ≡ num = omega arith in
                memcpy_alike destination source num 0 mem i alike
                  (ground (arith, aligned, long, head_size)) d (omega arith)
                ∙ ap (λ p. copy mem p mem source (num - 0) i) start
                ∙ ap (λ n. copy mem destination mem source n i) all
          ]
    ]

-- Between blocks that are aligned alike but not to a word, what memcpy copies next comes from
-- the start of the source, although the head of `h` bytes has been copied from there already: the
-- bytes of the destination behind the head are those of the source from its start on.
pub memcpy_restarts :
    (destination source num h k : ℕ) (mem : Memory)
    → Disjoint destination source num
    → destination % 4 ≡ source % 4
    → h ≡ 4 - destination % 4
    → h < 4
    → h ≤ num
    → k < num - h
    → memcpy destination source num mem (destination + h + k) ≡ mem (source + k)
unfolding head_size
memcpy_restarts destination source num h k mem d alike head lt le inside =
    let m = copy_bytes h destination source mem in
    memcpy_alike destination source num h mem (destination + h + k) alike
      (ground (arith, head, lt, le, head_size)) d le
    ∙ copy_inside m (destination + h) source (num - h) k inside
    ∙ copy_bytes_lem h destination source mem (source + k) (ground (arith, d, le))
    ∙ copy_outside mem destination source h (source + k) (ground (arith, d, inside))
