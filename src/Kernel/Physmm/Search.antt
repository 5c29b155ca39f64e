-- ===== src/Kernel/Physmm/Search.antt =====
-- What the loops over the bitmap find.
use posnk.Base.{
  ℕ, zero, suc, ◌+◌, ◌≤◌, ◌<◌, ◌≡◌, refl, ap, ◌∙◌, Bool, true, false, Option, none, some, arith,
  inl, inr, Bool-cases, ==→eq, ◌==◌, Option-cases, ◌⊎◌,
}
use posnk.Kernel.Physmm.{Word, Bitmap, first_bit, is_zero, search}

-- `b` is the first of the bits from `from` to before `to` that is set.
pub record IsFirst (w : ℕ → Bool) (from to b : ℕ) : Type 0 where
  pub above : from ≤ b
  pub below : b < to
  pub is_set : w b ≡ true
  pub least : (k : ℕ) → from ≤ k → k < b → w k ≡ false

abbrev pub NoBit : (ℕ → Bool) → ℕ → ℕ → Type 0
NoBit w from to = (k : ℕ) → from ≤ k → k < to → w k ≡ false

extend : (b to : ℕ) (w : ℕ → Bool) → w b ≡ false → NoBit w (b + 1) to → NoBit w b to
extend b to w e rest k le lt = elim (Bool-cases (k == b)) [
  | inl same ↦ rw (==→eq k b same) e
  | inr other ↦ rest k (ground (arith, le, other)) lt
]

pub first_bit_lem :
    (n b : ℕ) (w : Word)
    → ((first_bit n b w ≡ none) × NoBit w b (b + n))
      ⊎ ((j : ℕ) × (first_bit n b w ≡ some j) × IsFirst w b (b + n) j)
unfolding first_bit
first_bit_lem zero b w = inl (refl, λ k le lt. absurd (omega arith))
first_bit_lem (suc n) b w = elim (Bool-cases (w b)) [
  | inl e ↦ inr (
    b,
    rw e,
    record {
      above = omega arith;
      below = omega arith;
      is_set = e;
      least = λ k le lt. absurd (omega arith);
    },
  )
  | inr e ↦ elim (first_bit_lem n (b + 1) w) [
    | inl (run, nowhere) ↦
        inl (rw (e, run), extend b (b + suc n) w e λ k le lt. nowhere k le (omega arith))
    | inr (j, run, f) ↦ inr (
      j,
      rw (e, run),
      record {
        above = omega (arith, f.above);
        below = omega (arith, f.below);
        is_set = f.is_set;
        least = extend b j w e f.least;
      },
    )
  ]
]

-- The word is 0 exactly if none of its bits is set.
pub is_zero_lem : (w : Word) → ((is_zero w ≡ true) × NoBit w 0 32) ⊎ (is_zero w ≡ false)
unfolding is_zero
is_zero_lem w = elim (first_bit_lem 32 0 w) [
  | inl (run, nowhere) ↦ inl (ap (λ o. elim o [ none ↦ true | some _ ↦ false ]) run, nowhere)
  | inr (j, run, f) ↦ inr (ap (λ o. elim o [ none ↦ true | some _ ↦ false ]) run)
]

module _ (bits : Word → Option ℕ) where
  search_skip :
      (n c : ℕ) (m : Bitmap)
      → is_zero (m c) ≡ true
      → search bits (suc n) c m ≡ search bits n (c + 1) m
  unfolding search
  search_skip n c m e = rw e

  search_miss :
      (n c : ℕ) (m : Bitmap)
      → is_zero (m c) ≡ false
      → bits (m c) ≡ none
      → search bits (suc n) c m ≡ search bits n (c + 1) m
  unfolding search
  search_miss n c m e miss = rw (e, miss)

  search_hit :
      (n c : ℕ) (m : Bitmap) {b : ℕ}
      → is_zero (m c) ≡ false
      → bits (m c) ≡ some b
      → search bits (suc n) c m ≡ some (c, b)
  unfolding search
  search_hit n c m e hit = rw (e, hit)

  -- A word in which the search finds nothing.
  abbrev pub Passed : Word → Type 0
  Passed w = (is_zero w ≡ true) ⊎ (bits w ≡ none)

  abbrev AllPassed : Bitmap → ℕ → ℕ → Type 0
  AllPassed m from to = (k : ℕ) → from ≤ k → k < to → Passed (m k)

  -- The word in which it finds bit `b`, and that it passes the words before it.
  pub record IsHit (m : Bitmap) (from to c b : ℕ) : Type 0 where
    pub above : from ≤ c
    pub below : c < to
    pub hit : bits (m c) ≡ some b
    pub before : AllPassed m from c

  extend_words : (c to : ℕ) (m : Bitmap) → Passed (m c) → AllPassed m (c + 1) to → AllPassed m c to
  extend_words c to m e rest k le lt = elim (Bool-cases (k == c)) [
    | inl same ↦ rw (==→eq k c same) e
    | inr other ↦ rest k (ground (arith, le, other)) lt
  ]

  unfoldable pub Found : ℕ → ℕ → Bitmap → Type 0
  Found n c m =
      ((search bits n c m ≡ none) × AllPassed m c (c + n))
      ⊎ ((c' : ℕ) × (b : ℕ) × (search bits n c m ≡ some (c', b)) × IsHit m c (c + n) c' b)

  -- A word is passed.
  Found-next :
      (n c : ℕ) (m : Bitmap)
      → Passed (m c)
      → search bits (suc n) c m ≡ search bits n (c + 1) m
      → Found n (c + 1) m
      → Found (suc n) c m
  unfolding Found
  Found-next n c m passed step (inl (run, all)) =
      inl (step ∙ run, extend_words c (c + suc n) m passed λ k le lt. all k le (omega arith))
  Found-next n c m passed step (inr (c', b, run, h)) = inr (
    c',
    b,
    step ∙ run,
    record {
      above = omega (arith, h.above);
      below = omega (arith, h.below);
      hit = h.hit;
      before = extend_words c c' m passed h.before;
    },
  )

  pub search_lem : (n c : ℕ) (m : Bitmap) → Found n c m
  unfolding Found search
  search_lem zero c m = inl (refl, λ k le lt. absurd (omega arith))
  search_lem (suc n) c m = elim (Bool-cases (is_zero (m c))) [
    | inl e ↦ Found-next n c m (inl e) (search_skip n c m e) (search_lem n (c + 1) m)
    | inr e ↦ elim (Option-cases (bits (m c))) [
      | inl miss ↦ Found-next n c m (inr miss) (search_miss n c m e miss) (search_lem n (c + 1) m)
      | inr (b, hit) ↦ inr (
        c,
        b,
        search_hit n c m {b = b} e hit,
        record {
          above = omega arith;
          below = omega arith;
          hit = hit;
          before = λ k le lt. absurd (omega arith);
        },
      )
    ]
  ]
