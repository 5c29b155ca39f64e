-- ===== src/Util/Mruc/Adding.antt =====
-- mruc_add keeps a cache valid, and evicts the least recently used entry of a full one.
use posnk.Base.{
  ℕ, ◌+◌, ◌%◌, ◌^◌, ◌<◌, ◌≡◌, ◌≢◌, refl, sym, ap, ◌∙◌, Bool, true, false, ◌||◌, ◌==◌, if◌then◌else◌,
  List, [], ◌∷◌, ◌++◌, All, All-append, All-map, length, length-append, arith, ==→eq, ==→ne, ne→==,
  ==_refl, Bool-cases, inl, inr,
}
use posnk.Util.Llist.{null, upd}
use posnk.Util.Llist.Chain.{Avoids}
use posnk.Util.Llist.Ring.{added}
use posnk.Util.Llist.Operations.{llist_add_end_lem}
use posnk.Util.Mruc.{Mruc, Evictor, slot, owns, insert_bucket, count_entry, mruc_add}
use posnk.Util.Mruc.Members.{has, has-append, All-has, Avoids-has}
use posnk.Util.Mruc.Add.{insert_bucket_lem}
use posnk.Util.Mruc.Valid.{IsCache, IsBucket, IsBucket-slot, home, Changes-frame}

or_true : (b : Bool) → (b || true) ≡ true
or_true true = refl
or_true false = refl

or_false : (b : Bool) → (b || false) ≡ b
or_false true = refl
or_false false = refl

module _ (c : Mruc) (e h : ℕ) where
  abbrev hashed : Mruc
  hashed = record (owns true e c) { hash = upd c.hash e h }

  slots_hashed :
      (k : ℕ) (ys : List ℕ)
      → Avoids e ys
      → All (λ x. slot c (c.hash x) ≡ k) ys
      → All (λ x. slot c (upd c.hash e h x) ≡ k) ys
  slots_hashed k [] o s = tt
  slots_hashed k (y ∷ ys) (o, os) (s, ss) = (rw (ne→== y e o) s, slots_hashed k ys os ss)

  bucket_hashed : (k : ℕ) (ys : List ℕ) → Avoids e ys → IsBucket c k ys → IsBucket hashed k ys
  bucket_hashed k [] o b = b
  bucket_hashed k (y ∷ ys) o (t, r, s) = (t, r, slots_hashed k (y ∷ ys) o s)

  module _ (xs : List ℕ) (bs : ℕ → List ℕ) (i : IsCache c xs bs) (absent : has e xs ≡ false) where
    absent_bucket : (hash : ℕ) → Avoids e (bs (slot c hash))
    absent_bucket hash =
        Avoids-has e (bs (slot c hash)) (elim (Bool-cases (has e (bs (slot c hash)))) [
          | inr no_entry ↦ no_entry
          | inl m ↦
              let k =
                All-has _ e (bs (slot c hash))
                  (IsBucket-slot c _ (bs (slot c hash)) (i.buckets hash)) m in
              absurd (cc (m, i.cached e, absent, k))
        ])

    abbrev pub with_entry : ℕ → List ℕ
    with_entry k = if k == slot c h then bs k ++ (e ∷ []) else bs k

    owned_still : (x : ℕ) → c.owned x ≡ true → (if x == e then true else c.owned x) ≡ true
    owned_still x o = ground (arith, o)

    cached_with : (x : ℕ) → has x (with_entry (slot c (upd c.hash e h x))) ≡ has x (xs ++ (e ∷ []))
    cached_with x = elim (Bool-cases (x == e)) [
      | inl same ↦
          let swapped : (e == x) ≡ true = ground (arith, same) in
          rw
            (
              same,
              ==_refl (slot c h),
              has-append x (bs (slot c h)) (e ∷ []),
              has-append x xs (e ∷ []),
              swapped,
            )
            (or_true (has x (bs (slot c h))) ∙ sym (or_true (has x xs)))
      | inr other ↦
          let swapped : (e == x) ≡ false = ground (arith, other) in
          elim (Bool-cases (slot c (c.hash x) == slot c h)) [
            | inl here ↦ rw (
              other,
              here,
              has-append x (bs (slot c (c.hash x))) (e ∷ []),
              has-append x xs (e ∷ []),
              swapped,
              i.cached x,
            )
            | inr elsewhere ↦
                rw (other, elsewhere, has-append x xs (e ∷ []), swapped, i.cached x)
                  (sym (or_false (has x xs)))
          ]
    ]

    module _ (there : e ≢ null) (no_head : e ≢ c.mrul) (small : length xs + 1 < 2 ^ 31) where
      -- The cache before the entry is counted, and after.
      pub stored :
          (c₃ : Mruc) × ((evictor : Evictor) → mruc_add evictor e h c ≡ count_entry evictor c₃)
          × (c₃.csize ≡ c.csize)
          × (c₃.count ≡ c.count)
          × (c₃.hash ≡ upd c.hash e h)
          × IsCache (record c₃ { count = (c₃.count + 1) % 2 ^ 32 }) (xs ++ (e ∷ [])) with_entry
      unfolding mruc_add
      stored =
          let at_home : home hashed e ≡ slot c h = rw (==_refl e) in
          let hash_e : upd c.hash e h e ≡ h = rw (==_refl e) in
          let (b, t, run, change) =
            insert_bucket_lem hashed e (bs (slot c h))
              (rw at_home
                (bucket_hashed (slot c h) (bs (slot c h)) (absent_bucket h) (i.buckets h)))
              there (absent_bucket h) in
          let (run', ring) =
            llist_add_end_lem c.links c.mrul e xs i.ring there no_head (Avoids-has e xs absent) in
          (
            record hashed { bkt = b; table = t; links = added c.mrul e c.links },
            λ evictor.
                rw
                  (ne→== e null there, ap (λ k. insert_bucket e k hashed) (sym hash_e) ∙ run, run'),
            refl,
            refl,
            refl,
            record {
              ring = ring;
              buckets = λ hash. elim (Bool-cases (slot c hash == slot c h)) [
                | inl same ↦ rw (same, ==→eq _ _ same) (rw at_home at change.bucket)
                | inr other ↦ rw other (
                    Changes-frame hashed e b t _ (slot c hash) (bs (slot c hash)) change
                      (λ eq. ==→ne _ _ other (eq ∙ at_home))
                      (bucket_hashed _ (bs (slot c hash)) (absent_bucket hash) (i.buckets hash)))
              ];
              cached = cached_with;
              owners =
                  All-append _ xs (e ∷ []) (All-map _ xs owned_still i.owners) (rw (==_refl e), tt);
              counted = omega (arith, i.counted, small, length-append xs (e ∷ []));
              small = omega (arith, small, length-append xs (e ∷ []));
            },
          )
