-- ===== src/Util/Mruc/Add.antt =====
-- What mruc_add does to the bucket of an entry.
use posnk.Base.{
  ℕ, ◌≡◌, ◌≢◌, refl, sym, ap, ◌∙◌, some, List, [], ◌∷◌, ◌++◌, All-append, arith, ne→==, ==_refl,
}
use posnk.Util.Llist.{Links, null, upd, set_next, set_prev}
use posnk.Util.Llist.Chain.{Chain, Avoids}
use posnk.Util.Llist.Ring.{prev-All, added}
use posnk.Util.Llist.Operations.{llist_add_end_lem}
use posnk.Util.Mruc.{Mruc, slot, bucket_add, insert_bucket}
use posnk.Util.Mruc.Valid.{IsBucket, home, InHome, Changes}

module _ (c : Mruc) (e : ℕ) where
  abbrev Inserted : List ℕ → Type 0
  Inserted ys =
      (b : Links) × (t : ℕ → ℕ) × (insert_bucket e (c.hash e) c
        ≡ some (record c { bkt = b; table = t }))
      × Changes c e b t ys

  insert_empty : IsBucket c (home c e) [] → e ≢ null → Inserted (e ∷ [])
  unfolding insert_bucket Chain
  insert_empty empty there = (
    set_prev e e (set_next e e c.bkt),
    upd c.table (home c e) e,
    rw empty,
    record {
      bucket = (
        rw (==_refl (home c e)),
        record {
          chain = (ground arith, ground arith);
          head = tt;
          distinct = tt;
          there = there;
          entries = tt;
        },
        (refl, tt),
      );
      tables = λ k ne. rw (ne→== k (home c e) ne);
      links = λ x out.
          let xe : x ≢ e = λ eq. out (ap (λ y. slot c (c.hash y)) eq) in
          (ground arith, ground arith);
    },
  )

  insert_more :
      (y : ℕ) (ys : List ℕ)
      → IsBucket c (home c e) (y ∷ ys)
      → e ≢ null
      → Avoids e (y ∷ ys)
      → Inserted (y ∷ (ys ++ (e ∷ [])))
  unfolding insert_bucket bucket_add
  insert_more y ys (head, ring, (sy, slots)) there (ye, out) =
      let (_, ring') = llist_add_end_lem c.bkt y e ys ring there (λ eq. ye (sym eq)) out in
      let p0 : c.bkt.prev y ≢ null =
        prev-All (λ x. x ≢ null) c.bkt y y ys ring.there ring.entries ring.chain in
      let p : InHome c e (c.bkt.prev y) = prev-All (InHome c e) c.bkt y y ys sy slots ring.chain in
      (
        added y e c.bkt,
        c.table,
        rw (head, ne→== y null ring.there, ne→== y e ye, ne→== (c.bkt.prev y) null p0),
        record {
          bucket = (head, ring', (sy, All-append (InHome c e) ys (e ∷ []) slots (refl, tt)));
          tables = λ k ne. refl;
          links = λ x other.
              let xe : x ≢ e = λ eq. other (ap (λ z. slot c (c.hash z)) eq) in
              let xy : x ≢ y = λ eq. other (ap (λ z. slot c (c.hash z)) eq ∙ sy) in
              let xp : x ≢ c.bkt.prev y = λ eq. other (ap (λ z. slot c (c.hash z)) eq ∙ p) in
              (ground arith, ground arith);
        },
      )

  pub insert_bucket_lem :
      (ys : List ℕ) → IsBucket c (home c e) ys → e ≢ null → Avoids e ys → Inserted (ys ++ (e ∷ []))
  insert_bucket_lem [] bucket there out = insert_empty bucket there
  insert_bucket_lem (y ∷ ys) bucket there out = insert_more y ys bucket there out
