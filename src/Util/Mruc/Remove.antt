-- ===== src/Util/Mruc/Remove.antt =====
-- What mruc_remove does to a cache.
use posnk.Base.{
  ℕ, ◌≡◌, ◌≢◌, refl, sym, ap, ◌∙◌, true, false, ◌==◌, if◌then◌else◌, some, List, [], ◌∷◌, ◌++◌, All,
  All-append, All-split, arith, ==→eq, ==→ne, ne→==, ==_refl, Bool-cases, inl, inr,
}
use mathlib.Core.List.{append-nil}
use posnk.Util.Llist.{Links, null, upd, set_next, set_prev}
use posnk.Util.Llist.Chain.{Chain, Chain-split}
use posnk.Util.Llist.Ring.{IsRing, prev-All, next-All, removed, Chain-removed}
use posnk.Util.Llist.Operations.{llist_unlink_lem, Avoids-drop, Distinct-drop}
use posnk.Util.Mruc.{Mruc, slot, remove_bucket}
use posnk.Util.Mruc.Members.{has, erase, has-split, erase_split}
use posnk.Util.Mruc.Valid.{IsBucket, home, InHome, Changes}

-- The first entry of a ring is taken out of it: the second one becomes the first.
removed_first :
    (h : Links) (e y : ℕ) (ys : List ℕ) → IsRing h e (y ∷ ys) → IsRing (removed e h) y ys
unfolding Chain
removed_first h e y ys r =
    let (ye, ey) = r.head in
    let (c, c', cs) = r.chain in
    let whole = append-nil ys in
    record {
      chain = rw whole at (
          Chain-removed h y y e ys [] ye ye (rw whole r.distinct.0) (rw whole r.distinct.0)
            (rw whole ey) (rw whole r.distinct.1) cs (c, c'));
      head = r.distinct.0;
      distinct = r.distinct.1;
      there = r.entries.0;
      entries = r.entries.1;
    }

removed_later :
    (h : Links) (b e : ℕ) (xs ys : List ℕ)
    → IsRing h b (xs ++ (e ∷ ys))
    → IsRing (removed e h) b (xs ++ ys)
removed_later h b e xs ys r = (llist_unlink_lem h b e xs ys r).1

module _ (c : Mruc) (e : ℕ) where
  abbrev bypassed : Links
  bypassed = record {
    next = upd c.bkt.next (c.bkt.prev e) (c.bkt.next e);
    prev = upd c.bkt.prev (c.bkt.next e) (c.bkt.prev e);
  }

  abbrev pub nulled : Links → Links
  nulled b = set_prev e null (set_next e null b)

  remove_bucket_one :
      c.bkt.next e ≡ e → remove_bucket e c ≡ some (record c { table = upd c.table (home c e) null })
  unfolding remove_bucket
  remove_bucket_one one = rw (one, ==_refl e)

  remove_bucket_more :
      c.bkt.next e ≢ e
      → c.bkt.next e ≢ null
      → c.bkt.prev e ≢ null
      → remove_bucket e c
        ≡ some (record c {
          bkt = bypassed;
          table =
              if c.table (home c e) == e then upd c.table (home c e) (bypassed.next e) else c.table;
        })
  unfolding remove_bucket
  remove_bucket_more ne n p = rw (
    ne→== (c.bkt.next e) e ne,
    ne→== (c.bkt.next e) null n,
    ne→== e (c.bkt.next e) (λ eq. ne (sym eq)),
    ne→== (c.bkt.prev e) null p,
  )

  -- A node outside of the bucket is not touched.
  outside :
      InHome c e (c.bkt.next e)
      → InHome c e (c.bkt.prev e)
      → (x : ℕ) → slot c (c.hash x) ≢ home c e
      → ((removed e c.bkt).next x ≡ c.bkt.next x) × ((removed e c.bkt).prev x ≡ c.bkt.prev x)
  outside n p x out =
      let xe : x ≢ e = λ eq. out (ap (λ y. slot c (c.hash y)) eq) in
      let xn : x ≢ c.bkt.next e = λ eq. out (ap (λ y. slot c (c.hash y)) eq ∙ n) in
      let xp : x ≢ c.bkt.prev e = λ eq. out (ap (λ y. slot c (c.hash y)) eq ∙ p) in
      (ground arith, ground arith)

  Changes-more :
      (t : ℕ → ℕ) (b : ℕ) (ys : List ℕ)
      → InHome c e (c.bkt.next e)
      → InHome c e (c.bkt.prev e)
      → ((k : ℕ) → k ≢ home c e → t k ≡ c.table k)
      → t (home c e) ≡ b
      → IsRing (removed e c.bkt) b ys
      → All (InHome c e) (b ∷ ys)
      → Changes c e (nulled bypassed) t (b ∷ ys)
  Changes-more t b ys n p same there r all = record {
    bucket = (there, r, all);
    tables = same;
    links = outside n p;
  }

  unfoldable pub Taken : List ℕ → Type 0
  Taken ys =
      (b : Links) × (t : ℕ → ℕ) × (remove_bucket e c ≡ some (record c { bkt = b; table = t }))
      × Changes c e (nulled b) t ys

  -- `e` is the first entry of its bucket.
  take_first : (ys : List ℕ) → IsBucket c (home c e) (e ∷ ys) → Taken ys
  unfolding Taken Chain
  take_first [] (there, r, (s, _)) = (
    c.bkt,
    upd c.table (home c e) null,
    remove_bucket_one r.chain.0,
    record {
      bucket = rw (==_refl (home c e));
      tables = λ k ne. rw (ne→== k (home c e) ne);
      links = λ x out.
          let xe : x ≢ e = λ eq. out (ap (λ y. slot c (c.hash y)) eq) in
          (ground arith, ground arith);
    },
  )
  take_first (y ∷ ys) (there, r, (s, all)) =
      let (c₀, c₁, cs) = r.chain in
      let (n0, ns) = r.entries in
      let ne : c.bkt.next e ≢ e = rw c₀ r.head.0 in
      let p0 : c.bkt.prev e ≢ null = prev-All (λ x. x ≢ null) c.bkt y e ys n0 ns cs in
      let pe : c.bkt.prev e ≢ e = prev-All (λ x. x ≢ e) c.bkt y e ys r.head.0 r.head.1 cs in
      let first : (c.table (home c e) == e) ≡ true = rw there (==_refl e) in
      let p : InHome c e (c.bkt.prev e) = prev-All (InHome c e) c.bkt y e ys all.0 all.1 cs in
      (
        bypassed,
        upd c.table (home c e) y,
        remove_bucket_more ne (rw c₀ n0) p0
            ∙ rw (first, ne→== e (c.bkt.prev e) (λ eq. pe (sym eq)), c₀),
        Changes-more (upd c.table (home c e) y) y ys (rw c₀ all.0) p
            (λ k kne. rw (ne→== k (home c e) kne)) (rw (==_refl (home c e)))
            (removed_first c.bkt e y ys r) all,
      )

  -- It is a later one.
  take_later :
      (b : ℕ) (xs ys : List ℕ)
      → IsBucket c (home c e) (b ∷ (xs ++ (e ∷ ys)))
      → Taken (b ∷ (xs ++ ys))
  unfolding Taken
  take_later b xs ys (there, r, (sb, all)) =
      let (left, right) = Chain-split c.bkt b b e xs ys r.chain in
      let (sx, (se, sy)) = All-split (InHome c e) xs (e ∷ ys) all in
      let (eb, out) = Avoids-drop b e xs ys r.head in
      let (out', apart) = Distinct-drop e xs ys r.distinct in
      let (apart_left, apart_right) = All-split _ xs ys apart in
      let (nx, (ne0, ny)) = All-split _ xs (e ∷ ys) r.entries in
      let be : b ≢ e = λ eq. eb (sym eq) in
      let ne : c.bkt.next e ≢ e = next-All (λ x. x ≢ e) c.bkt e b ys be apart_right right in
      let n0 : c.bkt.next e ≢ null = next-All (λ x. x ≢ null) c.bkt e b ys r.there ny right in
      let p0 : c.bkt.prev e ≢ null = prev-All (λ x. x ≢ null) c.bkt b e xs r.there nx left in
      let n : InHome c e (c.bkt.next e) = next-All (InHome c e) c.bkt e b ys sb sy right in
      let p : InHome c e (c.bkt.prev e) = prev-All (InHome c e) c.bkt b e xs sb sx left in
      let later : (c.table (home c e) == e) ≡ false = rw there (ne→== b e be) in
      (
        bypassed,
        c.table,
        remove_bucket_more ne n0 p0 ∙ rw later,
        Changes-more c.table b (xs ++ ys) n p (λ k kne. refl) there
            (removed_later c.bkt b e xs ys r) (sb, All-append (InHome c e) xs ys sx sy),
      )

  -- A bucket that has `e` loses it.
  pub take_bucket : (ys : List ℕ) → IsBucket c (home c e) ys → has e ys ≡ true → Taken (erase e ys)
  take_bucket [] b m = absurd (cc m)
  take_bucket (y ∷ ys) bucket m = elim (Bool-cases (y == e)) [
    | inl same ↦
        let eq = ==→eq y e same in
        let bucket' : IsBucket c (home c e) (e ∷ ys) = rw eq at bucket in
        let rest : erase e (y ∷ ys) ≡ ys =
          ap (λ z. erase e (z ∷ ys)) eq ∙ erase_split e [] ys tt bucket'.1.head in
        rw rest (take_first ys bucket')
    | inr other ↦
        let (before, after, split) = has-split e ys (rw other at m) in
        let bucket' : IsBucket c (home c e) (y ∷ (before ++ (e ∷ after))) = rw split at bucket in
        let (_, apart) = Distinct-drop e before after bucket'.1.distinct in
        let (o, o') = All-split _ before after apart in
        let rest : erase e (y ∷ ys) ≡ y ∷ (before ++ after) =
          ap (λ zs. erase e (y ∷ zs)) split
          ∙ erase_split e (y ∷ before) after (==→ne y e other, o) o' in
        rw rest (take_later y before after bucket')
  ]
