-- ===== src/Svipc/Table/Laws.antt =====
-- What searching, writing and unlinking do to a list of objects.
use posnk.Base.{
  Bool, true, false, some, List, [], ◌∷◌, ◌++◌, arith, ◌≡◌, ap, All, Bool-cases, inl, inr,
}
use posnk.Svipc.Table.{find, update, remove}

module _ {A : Type 0} (p : A → Bool) where
  -- The node that is selected comes after nodes that are not, and unlinking it leaves the others in
  -- their order.
  pub find-remove :
      (xs : List A) {x : A}
      → find p xs ≡ some x
      → (before : List A) × (after : List A) × (xs ≡ before ++ (x ∷ after))
        × All (λ y. p y ≡ false) before
        × (p x ≡ true)
        × (remove p xs ≡ before ++ after)
  unfolding find remove
  find-remove [] h = absurd (cc h)
  find-remove (y ∷ ys) {x} h = elim (Bool-cases (p y)) [
    | inl e ↦
        let same : y ≡ x = ground arith in ([], ys, ap (λ z. z ∷ ys) same, tt, rw (← same) e, rw e)
    | inr e ↦
        let (before, after, split, none', hit, rest) = find-remove ys {x = x} (rw e at h) in
        (y ∷ before, after, ap (λ zs. y ∷ zs) split, (e, none'), hit, rw (e, rest))
  ]

  pub find-true : (xs : List A) {x : A} → find p xs ≡ some x → p x ≡ true
  find-true xs h = (find-remove xs h).4

  module _ (P : A → Type 0) where
    pub All-find : (xs : List A) {x : A} → All P xs → find p xs ≡ some x → P x
    unfolding find
    All-find [] a h = absurd (cc h)
    All-find (y ∷ ys) {x} a h = elim (Bool-cases (p y)) [
      | inl e ↦ let same : y ≡ x = ground arith in rw (← same) a.0
      | inr e ↦ All-find ys {x = x} a.1 (rw e at h)
    ]

    pub All-remove : (xs : List A) → All P xs → All P (remove p xs)
    unfolding remove
    All-remove [] a = tt
    All-remove (y ∷ ys) a = elim (Bool-cases (p y)) [
      | inl e ↦ rw e a.1
      | inr e ↦ rw e (a.0, All-remove ys a.1)
    ]

    -- Only the selected node is written.
    pub All-update :
        (f : A → A) (xs : List A)
        → All P xs
        → ((x : A) → find p xs ≡ some x → P x → P (f x))
        → All P (update p f xs)
    unfolding update find
    All-update f [] a keep = tt
    All-update f (y ∷ ys) a keep = elim (Bool-cases (p y)) [
      | inl e ↦ rw e (keep y (rw e) a.0, a.1)
      | inr e ↦ rw e (a.0, All-update f ys a.1 λ x h. keep x (rw e h))
    ]
