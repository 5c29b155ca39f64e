-- ===== src/Util/Mruc/Get.antt =====
-- What mruc_get finds.
use posnk.Base.{
  ℕ, zero, suc, ◌<◌, ◌≡◌, ◌≢◌, refl, sym, ap, ◌∙◌, Bool, true, false, ◌==◌, none, some, List, [],
  ◌∷◌, All, length, arith, ==→eq, ==→ne, ne→==, ==_refl, Bool-cases, ◌⊎◌, inl, inr,
}
use posnk.Svipc.Table.{find}
use posnk.Util.Llist.{null}
use posnk.Util.Llist.Chain.{Chain, Avoids}
use posnk.Util.Llist.Loops.{or_null}
use posnk.Util.Mruc.{Mruc, slot, get_from, mruc_get}
use posnk.Util.Mruc.Members.{has, All-has, All-of_has}
use posnk.Util.Mruc.Valid.{IsCache, IsBucket}

find_cases :
    (p : ℕ → Bool) (xs : List ℕ)
    → ((find p xs ≡ none) × All (λ x. p x ≡ false) xs)
      ⊎ ((x : ℕ) × (find p xs ≡ some x) × (has x xs ≡ true) × (p x ≡ true))
unfolding find
find_cases p [] = inl (refl, tt)
find_cases p (x ∷ xs) = elim (Bool-cases (p x)) [
  | inl hit ↦ inr (x, rw hit, rw (==_refl x), hit)
  | inr miss ↦ elim (find_cases p xs) [
    | inl (run, all) ↦ inl (rw (miss, run), (miss, all))
    | inr (y, run, m, hit) ↦ inr (y, rw (miss, run), ground (arith, m), hit)
  ]
]

module _ (c : Mruc) (h : ℕ) where
  abbrev matches : ℕ → Bool
  matches e = c.hash e == h

  get_from_lem :
      (fuel b a : ℕ) (zs : List ℕ)
      → length zs < fuel
      → Chain c.bkt a zs b
      → Avoids b zs
      → Avoids null zs
      → get_from fuel b a h c ≡ some (or_null (find matches (a ∷ zs)))
  unfolding get_from Chain find
  get_from_lem zero b a zs lt ch o n = absurd (omega arith)
  get_from_lem (suc k) b a [] lt (ch, ch') o n = elim (Bool-cases (c.hash a == h)) [
    | inl hit ↦ rw hit
    | inr miss ↦ rw (miss, ch, ==_refl b)
  ]
  get_from_lem (suc k) b a (x ∷ zs) lt (ch, ch', cs) (o, os) (n, ns) =
      elim (Bool-cases (c.hash a == h)) [
        | inl hit ↦ rw hit
        | inr miss ↦
            rw (miss, ch, ne→== x b o, ne→== x null n)
              (get_from_lem k b x zs (omega arith) cs os ns)
      ]

  get_bucket :
      (fuel : ℕ) (ys : List ℕ)
      → length ys < fuel
      → IsBucket c (slot c h) ys
      → mruc_get fuel h c ≡ some (or_null (find matches ys))
  unfolding mruc_get find
  get_bucket fuel [] lt t = rw t
  get_bucket fuel (b ∷ ys) lt (t, r, s) =
      rw (t, ne→== b null r.there) (get_from_lem fuel b b ys (omega arith) r.chain r.head r.entries)

  -- mruc_get ends with more fuel than the bucket has entries. It returns NULL if the cache holds no
  -- entry with the hash, and otherwise an entry of the cache that has the hash.
  pub mruc_get_lem :
      (fuel : ℕ) (xs : List ℕ) (bs : ℕ → List ℕ)
      → IsCache c xs bs
      → length (bs (slot c h)) < fuel
      → (r : ℕ) × (mruc_get fuel h c ≡ some r)
        × (((r ≡ null) × All (λ e. c.hash e ≢ h) xs) ⊎ ((has r xs ≡ true) × (c.hash r ≡ h)))
  mruc_get_lem fuel xs bs i lt =
      let run = get_bucket fuel (bs (slot c h)) lt (i.buckets h) in
      elim (find_cases matches (bs (slot c h))) [
        | inl (nothing, all) ↦ (
          null,
          run ∙ rw nothing,
          inl (
            refl,
            All-of_has _ xs λ e m same.
                let there : has e (bs (slot c h)) ≡ true =
                  ap (λ k. has e (bs (slot c k))) (sym same) ∙ i.cached e ∙ m in
                ==→ne (c.hash e) h (All-has _ e (bs (slot c h)) all there) same,
          ),
        )
        | inr (r, hit, m, same) ↦
            let eq = ==→eq (c.hash r) h same in
            (r, run ∙ rw hit, inr (sym (i.cached r) ∙ ap (λ k. has r (bs (slot c k))) eq ∙ m, eq))
      ]
