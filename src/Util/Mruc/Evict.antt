-- ===== src/Util/Mruc/Evict.antt =====
-- Whole operations of a cache whose evictor removes the entry it is given: additions to a cache with
-- room and to a full one, uses of an entry, and the flush.
use posnk.Base.{
  ℕ, zero, suc, ◌+◌, ◌-◌, ◌%◌, ◌^◌, ◌<◌, ◌≡◌, ◌≢◌, refl, ap, ◌∙◌, true, false, ◌==◌, some, List, [],
  ◌∷◌, ◌++◌, All, All-append, All-split, length, length-append, arith, ne→==, ==_refl,
}
use posnk.Util.Llist.{null, llist_get_first}
use posnk.Util.Llist.Chain.{Chain}
use posnk.Util.Llist.Ring.{IsRing, added, removed}
use posnk.Util.Llist.Operations.{llist_unlink_lem, llist_add_end_lem, Distinct-drop}
use posnk.Util.Mruc.{
  Mruc, Evictor, int_lt, count_entry, mruc_add, mruc_get_lru, mruc_remove, mruc_bump, mruc_flush,
}
use posnk.Util.Mruc.Members.{has, has-split, has_moved, erase, erase_split, All-has}
use posnk.Util.Mruc.Valid.{IsCache}
use posnk.Util.Mruc.Removal.{mruc_remove_lem}
use posnk.Util.Mruc.Adding.{with_entry, stored}

mruc_get_lru_lem :
    (c : Mruc) (x : ℕ) (xs : List ℕ) (bs : ℕ → List ℕ)
    → IsCache c (x ∷ xs) bs
    → mruc_get_lru c ≡ some x
unfolding mruc_get_lru llist_get_first Chain
mruc_get_lru_lem c x xs bs i =
    let first = i.ring.chain.0 in
    let full : (c.links.next c.mrul == c.mrul) ≡ false = rw first (ne→== x c.mrul i.ring.head.0) in
    rw (ne→== c.mrul null i.ring.there, full) (ap some first)

mruc_get_lru-none : (c : Mruc) (bs : ℕ → List ℕ) → IsCache c [] bs → mruc_get_lru c ≡ some null
unfolding mruc_get_lru llist_get_first Chain
mruc_get_lru-none c bs i =
    let empty : (c.links.next c.mrul == c.mrul) ≡ true = rw i.ring.chain.0 (==_refl c.mrul) in
    rw (ne→== c.mrul null i.ring.there, empty)

-- The entry at the front of the list is removed.
remove_front :
    (c : Mruc) (x : ℕ) (xs : List ℕ) (bs : ℕ → List ℕ)
    → IsCache c (x ∷ xs) bs
    → (c' : Mruc) × (bs' : ℕ → List ℕ) × (mruc_remove x c ≡ some c')
      × IsCache c' xs bs'
      × (c'.hash ≡ c.hash)
remove_front c x xs bs i =
    let (c', run, i', same) = mruc_remove_lem c x (x ∷ xs) bs i (ground arith) in
    let rest : erase x (x ∷ xs) ≡ xs = erase_split x [] xs tt i.ring.distinct.0 in
    (c', λ k. erase x (bs k), run, rw rest at i', same)

module _ (c : Mruc) (e h : ℕ) (xs : List ℕ) (bs : ℕ → List ℕ) (i : IsCache c xs bs) where
  module _ (absent : has e xs ≡ false) (there : e ≢ null) (no_head : e ≢ c.mrul)
      (size : c.csize < 2 ^ 31 - 1) where
    -- In a cache with room, an entry that it does not hold becomes the most recently used one, with
    -- the hash that is given, and nothing is evicted.
    pub mruc_add_room :
        (evictor : Evictor)
        → length xs < c.csize
        → (c' : Mruc) × (bs' : ℕ → List ℕ) × (mruc_add evictor e h c ≡ some c')
          × IsCache c' (xs ++ (e ∷ [])) bs'
          × (c'.hash e ≡ h)
    unfolding count_entry
    mruc_add_room evictor room =
        let (c₃, run, csize, count, hash, i') =
          stored c e h xs bs i absent there no_head (omega arith) in
        let fits : int_lt c₃.csize ((c₃.count + 1) % 2 ^ 32) ≡ false =
          ground (arith, csize, count, i.counted, room, size) in
        (
          record c₃ { count = (c₃.count + 1) % 2 ^ 32 },
          with_entry c e h xs bs i absent,
          run evictor ∙ rw fits,
          i',
          ap (λ f. f e) hash ∙ rw (==_refl e),
        )

    -- In a full one the least recently used entry is removed for it.
    pub mruc_add_full :
        (x : ℕ) (rest : List ℕ)
        → xs ≡ x ∷ rest
        → length xs ≡ c.csize
        → (c' : Mruc) × (bs' : ℕ → List ℕ) × (mruc_add mruc_remove e h c ≡ some c')
          × IsCache c' (rest ++ (e ∷ [])) bs'
          × (c'.hash e ≡ h)
    unfolding count_entry
    mruc_add_full x rest split full =
        let (c₃, run, csize, count, hash, i') =
          stored c e h xs bs i absent there no_head (omega arith) in
        let c₄ = record c₃ { count = (c₃.count + 1) % 2 ^ 32 } in
        let over : int_lt c₃.csize ((c₃.count + 1) % 2 ^ 32) ≡ true =
          ground (arith, csize, count, i.counted, full, size) in
        let shown : xs ++ (e ∷ []) ≡ x ∷ (rest ++ (e ∷ [])) = ap (λ l. l ++ (e ∷ [])) split in
        let i'' : IsCache c₄ (x ∷ (rest ++ (e ∷ []))) (with_entry c e h xs bs i absent) =
          rw shown at i' in
        let (c', bs', run', valid, same) = remove_front c₄ x (rest ++ (e ∷ [])) _ i'' in
        (
          c',
          bs',
          run mruc_remove ∙ rw (over, mruc_get_lru_lem c₄ x _ _ i'', run'),
          valid,
          ap (λ f. f e) (same ∙ hash) ∙ rw (==_refl e),
        )

  -- A use makes the entry the most recently used one: the others stay in their order and in their
  -- buckets.
  pub mruc_bump_lem :
      has e xs ≡ true
      → e ≢ c.mrul
      → (c' : Mruc) × (mruc_bump e c ≡ some c')
        × IsCache c' (erase e xs ++ (e ∷ [])) bs
        × (c'.hash ≡ c.hash)
  unfolding mruc_bump
  mruc_bump_lem m no_head =
      let (before, after, split) = has-split e xs m in
      let r : IsRing c.links c.mrul (before ++ (e ∷ after)) = rw split at i.ring in
      let (run, ring, _, _) = llist_unlink_lem c.links c.mrul e before after r in
      let (_, apart) = Distinct-drop e before after r.distinct in
      let (o, o') = All-split _ before after apart in
      let rest : erase e xs ≡ before ++ after =
        ap (erase e) split ∙ erase_split e before after o o' in
      let there : e ≢ null = All-has (λ x. x ≢ null) e xs i.ring.entries m in
      let l = removed e c.links in
      let (run', ring') = llist_add_end_lem l c.mrul e (before ++ after) ring there no_head apart in
      let owners' = All-split _ before (e ∷ after) (rw split at i.owners) in
      let size : length xs ≡ length (before ++ after) + 1 =
        ap length split
        ∙ omega (arith, length-append before (e ∷ after), length-append before after) in
      let owned : c.owned e ≡ true = All-has _ e xs i.owners m in
      let owned' : All (λ x. c.owned x ≡ true) (before ++ after) =
        All-append _ before after owners'.0 owners'.1.1 in
      (
        record c { links = added c.mrul e l },
        rw (ne→== e null there, owned, run, run'),
        record {
          ring = rw rest ring';
          buckets = i.buckets;
          cached = λ x. i.cached x ∙ has_moved x e xs m;
          owners = rw rest (All-append _ (before ++ after) (e ∷ []) owned' (owned, tt));
          counted =
              rw rest (omega (arith, i.counted, size, length-append (before ++ after) (e ∷ [])));
          small = rw rest (omega (arith, i.small, size, length-append (before ++ after) (e ∷ [])));
        },
        refl,
      )

-- With more fuel than entries the flush ends, and the cache is empty.
pub mruc_flush_lem :
    (fuel : ℕ) (c : Mruc) (xs : List ℕ) (bs : ℕ → List ℕ)
    → IsCache c xs bs
    → length xs < fuel
    → (c' : Mruc) × (bs' : ℕ → List ℕ) × (mruc_flush mruc_remove fuel c ≡ some c')
      × IsCache c' [] bs'
unfolding mruc_flush
mruc_flush_lem zero c xs bs i lt = absurd (omega arith)
mruc_flush_lem (suc n) c [] bs i lt = (c, bs, rw (mruc_flush, mruc_get_lru-none c bs i), i)
mruc_flush_lem (suc n) c (x ∷ xs) bs i lt =
    let (c', bs', run, valid, _) = remove_front c x xs bs i in
    let (c'', bs'', run', valid') = mruc_flush_lem n c' xs bs' valid (omega arith) in
    (
      c'',
      bs'',
      rw (mruc_flush, mruc_get_lru_lem c x xs bs i, ne→== x null i.ring.entries.0, run, run'),
      valid',
    )
