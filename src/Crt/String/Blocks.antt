-- ===== src/Crt/String/Blocks.antt =====
-- What the loops over bytes and words write.
use posnk.Base.{
  ℕ, true, false, zero, suc, ◌+◌, ◌-◌, ◌*◌, ◌≤◌, ◌≡◌, refl, ◌∙◌, ◌==◌, ltb, leb, ◌&&◌,
  if◌then◌else◌, arith, ◌⊎◌, inl, inr, ap, Bool-cases,
}
use posnk.Base.Memory.{Memory, copy}
use posnk.Crt.String.{store, store_word, fill_bytes, fill_words, copy_bytes, copy_words}

abbrev pub filled : ℕ → ℕ → ℕ → Memory → Memory
filled p n v mem i = if leb p i && ltb i (p + n) then v else mem i

pub fill_bytes_lem :
    (n p v : ℕ) (mem : Memory) (i : ℕ) → fill_bytes n p v mem i ≡ filled p n v mem i
unfolding fill_bytes
fill_bytes_lem zero p v mem i = ground arith
fill_bytes_lem (suc n) p v mem i = fill_bytes_lem n (p + 1) v (store p v mem) i ∙ ground arith

pub fill_words_lem :
    (n p v : ℕ) (mem : Memory) (i : ℕ) → fill_words n p v mem i ≡ filled p (4 * n) v mem i
unfolding fill_words
fill_words_lem zero p v mem i = ground arith
fill_words_lem (suc n) p v mem i =
    fill_words_lem n (p + 4) v (store_word p (λ _. v) mem) i ∙ ground arith

-- Two regions of `n` bytes without a common byte.
abbrev pub Disjoint : ℕ → ℕ → ℕ → Type 0
Disjoint p s n = (p + n ≤ s) ⊎ (s + n ≤ p)

-- The step of a copy: `k` bytes at once, then the rest.
pub store_copy :
    (k n p s : ℕ) (mem mem' : Memory) (i : ℕ)
    → Disjoint p s (k + n)
    → ((j : ℕ) → mem' j ≡ copy mem p mem s k j)
    → copy mem' (p + k) mem' (s + k) n i ≡ copy mem p mem s (k + n) i
unfolding copy
store_copy k n p s mem mem' i d h = elim (Bool-cases (leb (p + k) i && ltb i (p + k + n))) [
  | inl inside ↦
      let at' = s + k + (i - (p + k)) in
      let same : at' ≡ s + (i - p) = ground (arith, inside) in
      let range : (leb p i && ltb i (p + (k + n))) ≡ true = ground (arith, inside) in
      let apart : (leb p at' && ltb at' (p + k)) ≡ false = ground (arith, inside, d) in
      rw (inside, range) (h at' ∙ rw apart (ap mem same))
  | inr outside ↦ rw outside (h i ∙ ground (arith, outside))
]

store_byte : (p s : ℕ) (mem : Memory) (j : ℕ) → store p (mem s) mem j ≡ copy mem p mem s 1 j
unfolding copy
store_byte p s mem j = elim (Bool-cases (j == p)) [
  | inl e ↦
      let range : (leb p j && ltb j (p + 1)) ≡ true = ground (arith, e) in
      let same : s ≡ s + (j - p) = ground (arith, e) in rw (e, range) (ap mem same)
  | inr e ↦ let range : (leb p j && ltb j (p + 1)) ≡ false = ground (arith, e) in rw (e, range)
]

pub copy_bytes_lem :
    (n p s : ℕ) (mem : Memory) (i : ℕ)
    → Disjoint p s n
    → copy_bytes n p s mem i ≡ copy mem p mem s n i
unfolding copy_bytes copy
copy_bytes_lem zero p s mem i d = ground arith
copy_bytes_lem (suc n) p s mem i d =
    copy_bytes_lem n (p + 1) (s + 1) (store p (mem s) mem) i (ground (arith, d))
    ∙ store_copy 1 n p s mem (store p (mem s) mem) i (ground (arith, d)) (store_byte p s mem)
    ∙ ap (λ m. copy mem p mem s m i) (omega arith)

pub copy_words_lem :
    (n p s : ℕ) (mem : Memory) (i : ℕ)
    → Disjoint p s (4 * n)
    → copy_words n p s mem i ≡ copy mem p mem s (4 * n) i
unfolding copy_words copy
copy_words_lem zero p s mem i d = ground arith
copy_words_lem (suc n) p s mem i d =
    copy_words_lem n (p + 4) (s + 4) (store_word p (λ k. mem (s + k)) mem) i (ground (arith, d))
    ∙ store_copy 4 (4 * n) p s mem (store_word p (λ k. mem (s + k)) mem) i (ground (arith, d))
        (λ j. refl)
    ∙ ap (λ m. copy mem p mem s m i) (omega arith)
