-- ===== src/Util/Mruc/Removal.antt =====
-- mruc_remove keeps a cache valid.
use posnk.Base.{
  ℕ, ◌+◌, ◌-◌, ◌%◌, ◌^◌, ◌≡◌, ◌≢◌, refl, sym, ap, ◌∙◌, true, false, not, ◌&&◌, ◌==◌, if◌then◌else◌,
  some, List, ◌∷◌, ◌++◌, All-split, All-map, length, length-append, arith, ==→eq, ==→ne, ne→==,
  Bool-cases, inl, inr,
}
use posnk.Util.Llist.{null}
use posnk.Util.Llist.Ring.{IsRing, removed}
use posnk.Util.Llist.Operations.{llist_unlink_lem, Distinct-drop}
use posnk.Util.Mruc.{Mruc, slot, owns, mruc_remove}
use posnk.Util.Mruc.Members.{
  has, erase, has-erase, has-split, erase_split, erase_self, All-has, All-of_has,
}
use posnk.Util.Mruc.Valid.{IsCache, IsBucket, IsBucket-slot, home, Changes-frame}
use posnk.Util.Mruc.Remove.{nulled, Taken, take_bucket}

-- A bucket elsewhere does not have the entry.
erase_other : (c : Mruc) (e k : ℕ) (ys : List ℕ) → k ≢ home c e → IsBucket c k ys → erase e ys ≡ ys
erase_other c e k ys other bucket = erase_self e ys (
    All-map _ ys (λ x s eq. other (sym s ∙ ap (λ z. slot c (c.hash z)) eq))
      (IsBucket-slot c k ys bucket))

module _ (c : Mruc) (e : ℕ) (xs : List ℕ) (bs : ℕ → List ℕ) (i : IsCache c xs bs) where
  module _ (m : has e xs ≡ true) where
    length-erase :
        (before after : List ℕ)
        → xs ≡ before ++ (e ∷ after)
        → length xs ≡ length (before ++ after) + 1
    length-erase before after split =
        ap length split
        ∙ omega (arith, length-append before (e ∷ after), length-append before after)

    owned_rest :
        (x : ℕ) → (has x xs && not (x == e)) ≡ true → (if x == e then false else c.owned x) ≡ true
    owned_rest x h = ground (arith, h, All-has _ x xs i.owners)

    -- Removing an entry takes it out of the list and out of its bucket; the other entries stay in
    -- their order, and the cache stays valid.
    pub mruc_remove_lem :
        (c' : Mruc) × (mruc_remove e c ≡ some c')
        × IsCache c' (erase e xs) (λ k. erase e (bs k))
        × (c'.hash ≡ c.hash)
    unfolding mruc_remove Taken
    mruc_remove_lem =
        let (before, after, split) = has-split e xs m in
        let r : IsRing c.links c.mrul (before ++ (e ∷ after)) = rw split at i.ring in
        let (run, ring, _, _) = llist_unlink_lem c.links c.mrul e before after r in
        let (_, apart) = Distinct-drop e before after r.distinct in
        let (o, o') = All-split _ before after apart in
        let rest : erase e xs ≡ before ++ after =
          ap (erase e) split ∙ erase_split e before after o o' in
        let there : e ≢ null = All-has (λ x. x ≢ null) e xs i.ring.entries m in
        let c₁ = record c { links = removed e c.links } in
        let (b, t, run', taken) =
          take_bucket c₁ e (bs (home c e)) (i.buckets (c.hash e)) (i.cached e ∙ m) in
        (
          record (owns false e (record c₁ { table = t })) {
            count = (c.count + 2 ^ 32 - 1) % 2 ^ 32;
            bkt = nulled c₁ e b;
          },
          rw (ne→== e null there, All-has _ e xs i.owners m, run, run'),
          record {
            ring = rw rest ring;
            buckets = λ hash. elim (Bool-cases (slot c hash == home c e)) [
              | inl same ↦ rw (==→eq _ _ same) taken.bucket
              | inr other ↦
                  let elsewhere = ==→ne _ _ other in
                  rw (erase_other c e (slot c hash) (bs (slot c hash)) elsewhere (i.buckets hash)) (
                    Changes-frame c₁ e (nulled c₁ e b) t _ (slot c hash) (bs (slot c hash)) taken
                      elsewhere (i.buckets hash))
            ];
            cached = λ x. rw (has-erase x e (bs (slot c (c.hash x))), has-erase x e xs, i.cached x);
            owners = All-of_has _ (erase e xs) λ x h. owned_rest x (sym (has-erase x e xs) ∙ h);
            counted = rw rest (omega (arith, i.counted, i.small, length-erase before after split));
            small = rw rest (omega (arith, i.small, length-erase before after split));
          },
          refl,
        )
