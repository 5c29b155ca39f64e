-- ===== src/Util/Llist/Operations.antt =====
-- llist_create, llist_add_end, llist_unlink and the two that take an entry off, on rings.
use posnk.Base.{
  ℕ, ◌≡◌, ◌≢◌, sym, ap, ◌==◌, List, [], ◌∷◌, ◌++◌, All-append, All-split, arith, some, false, ne→==,
}
use posnk.Util.Llist.{
  Links, null, upd, llist_add_end, llist_unlink, llist_create, llist_remove_first,
}
use posnk.Util.Llist.Chain.{Chain, Avoids, Distinct, Chain-split}
use posnk.Util.Llist.Ring.{IsRing, prev-All, next-All, added, Chain-added, removed, Chain-removed}

pub Distinct-snoc : (xs : List ℕ) (e : ℕ) → Distinct xs → Avoids e xs → Distinct (xs ++ (e ∷ []))
Distinct-snoc [] e d o = (tt, tt)
Distinct-snoc (x ∷ xs) e (xx, d) (o, os) =
    (All-append _ xs (e ∷ []) xx ((λ eq. o (sym eq)), tt), Distinct-snoc xs e d os)

pub Avoids-drop :
    (a x : ℕ) (xs ys : List ℕ) → Avoids a (xs ++ (x ∷ ys)) → (x ≢ a) × Avoids a (xs ++ ys)
Avoids-drop a x xs ys o = let (l, r) = All-split _ xs (x ∷ ys) o in (r.0, All-append _ xs ys l r.1)

pub Distinct-drop :
    (x : ℕ) (xs ys : List ℕ) → Distinct (xs ++ (x ∷ ys)) → Distinct (xs ++ ys) × Avoids x (xs ++ ys)
Distinct-drop x [] ys (o, d) = (d, o)
Distinct-drop x (z ∷ xs) ys (zz, d) =
    let (d', o) = Distinct-drop x xs ys d in
    let (xz, zs) = Avoids-drop z x xs ys zz in ((zs, d'), ((λ eq. xz (sym eq)), o))

pub llist_create_lem :
    (h : Links) (l : ℕ) → l ≢ null → (h' : Links) × (llist_create l h ≡ some h') × IsRing h' l []
unfolding llist_create Chain
llist_create_lem h l there = (
  record { next = upd h.next l l; prev = upd h.prev l l },
  ground arith,
  record {
    chain = (ground arith, ground arith);
    head = tt;
    distinct = tt;
    there = there;
    entries = tt;
  },
)

-- An entry that is not in the ring becomes its last one.
pub llist_add_end_lem :
    (h : Links) (l e : ℕ) (xs : List ℕ)
    → IsRing h l xs
    → e ≢ null
    → e ≢ l
    → Avoids e xs
    → (llist_add_end l e h ≡ some (added l e h)) × IsRing (added l e h) l (xs ++ (e ∷ []))
unfolding llist_add_end
llist_add_end_lem h l e xs r e_there el out =
    let last : h.prev l ≢ null = prev-All (λ y. y ≢ null) h l l xs r.there r.entries r.chain in
    let le : (l == e) ≡ false = ne→== l e (λ eq. el (sym eq)) in
    (
      rw (ne→== l null r.there, ne→== e null e_there, le, ne→== (h.prev l) null last),
      record {
        chain = Chain-added h l l e xs el el out r.head r.head r.distinct r.chain;
        head = All-append _ xs (e ∷ []) r.head (el, tt);
        distinct = Distinct-snoc xs e r.distinct out;
        there = r.there;
        entries = All-append _ xs (e ∷ []) r.entries (e_there, tt);
      },
    )

module _ (h : Links) (l x : ℕ) (xs ys : List ℕ) (r : IsRing h l (xs ++ (x ∷ ys))) where
  -- An entry of a ring is taken out of it, the others stay in their order, and its pointers become
  -- NULL.
  pub llist_unlink_lem :
      (llist_unlink x h ≡ some (removed x h))
      × IsRing (removed x h) l (xs ++ ys)
      × ((removed x h).next x ≡ null)
      × ((removed x h).prev x ≡ null)
  unfolding llist_unlink
  llist_unlink_lem =
      let (left, right) = Chain-split h l l x xs ys r.chain in
      let (xl, heads) = Avoids-drop l x xs ys r.head in
      let (x_there, entries) = Avoids-drop null x xs ys r.entries in
      let (d, out) = Distinct-drop x xs ys r.distinct in
      let (there_left, there_right) = All-split _ xs (x ∷ ys) r.entries in
      let (out_left, out_right) = All-split _ xs ys out in
      let lx : l ≢ x = λ eq. xl (sym eq) in
      let p : h.prev x ≢ null = prev-All (λ y. y ≢ null) h l x xs r.there there_left left in
      let n : h.next x ≢ null = next-All (λ y. y ≢ null) h x l ys r.there there_right.1 right in
      let px : h.prev x ≢ x = prev-All (λ y. y ≢ x) h l x xs lx out_left left in
      (
        rw (
          ne→== x null x_there,
          ne→== (h.prev x) null p,
          ne→== (h.next x) null n,
          ne→== x (h.prev x) (λ eq. px (sym eq)),
          ne→== (h.next x) null n,
        ),
        record {
          chain = Chain-removed h l l x xs ys lx lx heads heads out d left right;
          head = heads;
          distinct = d;
          there = r.there;
          entries = entries;
        },
        ground arith,
        ground arith,
      )

pub llist_remove_first_lem :
    (h : Links) (l x : ℕ) (xs : List ℕ)
    → IsRing h l (x ∷ xs)
    → (llist_remove_first l h ≡ some (x, removed x h)) × IsRing (removed x h) l xs
unfolding llist_remove_first Chain
llist_remove_first_lem h l x xs r =
    let (run, r', _, _) = llist_unlink_lem h l x [] xs r in
    let first = r.chain.0 in
    let full : (h.next l == l) ≡ false = rw first (ne→== x l r.head.0) in
    (rw (ne→== l null r.there, full, first, run) (ap (λ y. some (y, removed x h)) first), r')
