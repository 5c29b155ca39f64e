-- ===== src/Util/Mruc/Members.antt =====
-- Lists of addresses: whether an address stands in one, and the list without it.
use posnk.Base.{
  ℕ, ◌≡◌, refl, ap, ◌∙◌, Bool, true, false, not, ◌&&◌, ◌||◌, ◌==◌, if◌then◌else◌, List, [], ◌∷◌,
  ◌++◌, All, arith, ==→eq, ne→==, ==_refl, Bool-cases, inl, inr,
}
use posnk.Util.Llist.Chain.{Avoids}

abbrev pub has : ℕ → List ℕ → Bool
has e [] = false
has e (x ∷ xs) = x == e || has e xs

unfoldable pub erase : ℕ → List ℕ → List ℕ
erase e [] = []
erase e (x ∷ xs) = if x == e then erase e xs else x ∷ erase e xs

pub has-append : (e : ℕ) (xs ys : List ℕ) → has e (xs ++ ys) ≡ (has e xs || has e ys)
has-append e [] ys = refl
has-append e (x ∷ xs) ys = ground (arith, has-append e xs ys)

pub has-erase : (x e : ℕ) (xs : List ℕ) → has x (erase e xs) ≡ (has x xs && not (x == e))
unfolding erase
has-erase x e [] = refl
has-erase x e (y ∷ xs) = ground (arith, has-erase x e xs)

pub Avoids-has : (e : ℕ) (xs : List ℕ) → has e xs ≡ false → Avoids e xs
Avoids-has e [] h = tt
Avoids-has e (x ∷ xs) h = (ground (arith, h), Avoids-has e xs (ground (arith, h)))

pub has-false : (e : ℕ) (xs : List ℕ) → Avoids e xs → has e xs ≡ false
has-false e [] o = refl
has-false e (x ∷ xs) (o, os) = rw (ne→== x e o) (has-false e xs os)

pub erase_self : (e : ℕ) (xs : List ℕ) → Avoids e xs → erase e xs ≡ xs
unfolding erase
erase_self e [] o = refl
erase_self e (x ∷ xs) (o, os) = rw (ne→== x e o) (ap (λ ys. x ∷ ys) (erase_self e xs os))

pub erase-append : (e : ℕ) (xs ys : List ℕ) → erase e (xs ++ ys) ≡ erase e xs ++ erase e ys
unfolding erase
erase-append e [] ys = refl
erase-append e (x ∷ xs) ys = ground (arith, erase-append e xs ys)

-- Taking out the only occurrence.
pub erase_split :
    (e : ℕ) (xs ys : List ℕ) → Avoids e xs → Avoids e ys → erase e (xs ++ (e ∷ ys)) ≡ xs ++ ys
unfolding erase
erase_split e [] ys o o' = rw (==_refl e) (erase_self e ys o')
erase_split e (x ∷ xs) ys (o, os) o' =
    rw (ne→== x e o) (ap (λ zs. x ∷ zs) (erase_split e xs ys os o'))

pub All-has : (P : ℕ → Type 0) (e : ℕ) (xs : List ℕ) → All P xs → has e xs ≡ true → P e
All-has P e [] a h = absurd (cc h)
All-has P e (x ∷ xs) (p, ps) h = elim (Bool-cases (x == e)) [
  | inl same ↦ rw (← ==→eq x e same) p
  | inr other ↦ All-has P e xs ps (rw other at h)
]

pub All-of_has : (P : ℕ → Type 0) (xs : List ℕ) → ((e : ℕ) → has e xs ≡ true → P e) → All P xs
All-of_has P [] f = tt
All-of_has P (x ∷ xs) f = (f x (rw (==_refl x)), All-of_has P xs λ e h. f e (ground (arith, h)))

-- Where an address stands in a list.
pub has-split :
    (e : ℕ) (xs : List ℕ)
    → has e xs ≡ true
    → (before : List ℕ) × (after : List ℕ) × (xs ≡ before ++ (e ∷ after))
has-split e [] h = absurd (cc h)
has-split e (x ∷ xs) h = elim (Bool-cases (x == e)) [
  | inl same ↦ ([], xs, ap (λ y. y ∷ xs) (==→eq x e same))
  | inr other ↦
      let (before, after, split) = has-split e xs (rw other at h) in
      (x ∷ before, after, ap (λ ys. x ∷ ys) split)
]

pub All-erase : (P : ℕ → Type 0) (e : ℕ) (xs : List ℕ) → All P xs → All P (erase e xs)
unfolding erase
All-erase P e [] a = tt
All-erase P e (x ∷ xs) (p, ps) = elim (Bool-cases (x == e)) [
  | inl same ↦ rw same (All-erase P e xs ps)
  | inr other ↦ rw other (p, All-erase P e xs ps)
]

-- Moving an address to the end.
pub has_moved :
    (x e : ℕ) (xs : List ℕ) → has e xs ≡ true → has x xs ≡ has x (erase e xs ++ (e ∷ []))
has_moved x e xs m = elim (Bool-cases (x == e)) [
  | inl same ↦
      let there : has x xs ≡ true = ap (λ y. has y xs) (==→eq x e same) ∙ m in
      ground (arith, there, same, has-append x (erase e xs) (e ∷ []))
  | inr other ↦ ground (arith, other, has-append x (erase e xs) (e ∷ []), has-erase x e xs)
]
