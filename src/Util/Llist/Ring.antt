-- ===== src/Util/Llist/Ring.antt =====
-- Rings: what llist_add_end and llist_unlink do to the list that a ring stands for.
use posnk.Base.{ℕ, ◌≡◌, ◌≢◌, sym, List, [], ◌∷◌, ◌++◌, All, All-split, arith}
use posnk.Util.Llist.{Links, null, upd}
use posnk.Util.Llist.Chain.{Chain, Avoids, Distinct, Chain-frame}

-- The ring of the head `l` and the entries `xs`, in their order.
pub record IsRing (h : Links) (l : ℕ) (xs : List ℕ) : Type 0 where
  pub chain : Chain h l xs l
  pub head : Avoids l xs
  pub distinct : Distinct xs
  pub there : l ≢ null
  pub entries : Avoids null xs

-- The last node before the end of a chain.
pub prev-All :
    (P : ℕ → Type 0) (h : Links) (a b : ℕ) (xs : List ℕ)
    → P a
    → All P xs
    → Chain h a xs b
    → P (h.prev b)
unfolding Chain
prev-All P h a b [] pa pxs (c, c') = rw c' pa
prev-All P h a b (x ∷ xs) pa (px, pxs) (c, c', cs) = prev-All P h x b xs px pxs cs

-- The first node of a chain behind its start.
pub next-All :
    (P : ℕ → Type 0) (h : Links) (a b : ℕ) (xs : List ℕ)
    → P b
    → All P xs
    → Chain h a xs b
    → P (h.next a)
unfolding Chain
next-All P h a b [] pb pxs (c, c') = rw c pb
next-All P h a b (x ∷ xs) pb (px, pxs) (c, c', cs) = rw c px

-- The links after `entry` has been put before `b`.
abbrev pub added : ℕ → ℕ → Links → Links
added b e h = record {
  next = upd (upd h.next e b) (h.prev b) e;
  prev = upd (upd h.prev e (h.prev b)) b e;
}

pub Chain-added :
    (h : Links) (a b e : ℕ) (xs : List ℕ)
    → e ≢ a
    → e ≢ b
    → Avoids e xs
    → Avoids a xs
    → Avoids b xs
    → Distinct xs
    → Chain h a xs b
    → Chain (added b e h) a (xs ++ (e ∷ [])) b
unfolding Chain
Chain-added h a b e [] ea eb ex ax bx d (c, c') =
    (ground arith, ground arith, (ground arith, ground arith))
Chain-added h a b e (x ∷ xs) ea eb (ex, exs) (ax, axs) (bx, bxs) (xxs, d) (c, c', cs) =
    let last : h.prev b ≢ a = prev-All (λ y. y ≢ a) h x b xs ax axs cs in
    (ground arith, ground arith, Chain-added h x b e xs (λ eq. ex (sym eq)) eb exs xxs bxs d cs)

-- The links after `x` has been taken out.
abbrev pub removed : ℕ → Links → Links
removed x h = record {
  next = upd (upd h.next (h.prev x) (h.next x)) x null;
  prev = upd (upd h.prev (h.next x) (h.prev x)) x null;
}

removed-others :
    (h : Links) (x : ℕ) (ys : List ℕ)
    → Avoids (h.prev x) ys
    → Avoids (h.next x) ys
    → Avoids x ys
    → All (λ y. ((removed x h).next y ≡ h.next y) × ((removed x h).prev y ≡ h.prev y)) ys
removed-others h x [] p n o = tt
removed-others h x (y ∷ ys) (p, ps) (n, ns) (o, os) =
    ((ground arith, ground arith), removed-others h x ys ps ns os)

pub Chain-removed :
    (h : Links) (a b x : ℕ) (xs ys : List ℕ)
    → a ≢ x
    → b ≢ x
    → Avoids a (xs ++ ys)
    → Avoids b (xs ++ ys)
    → Avoids x (xs ++ ys)
    → Distinct (xs ++ ys)
    → Chain h a xs x
    → Chain h x ys b
    → Chain (removed x h) a (xs ++ ys) b
unfolding Chain
Chain-removed h a b x [] [] ax bx als bs os d (c, c') (k, k') = (ground arith, ground arith)
Chain-removed h a b x [] (y ∷ ys) ax bx (ay, als) (by, bs) (oy, os) (yy, d) (c, c') (k, k', ks) = (
  ground arith,
  ground arith,
  Chain-frame h (removed x h) y b ys (ground arith) (ground arith)
      (removed-others h x ys (rw c' als) (rw k yy) os) ks,
)
Chain-removed h a b x (z ∷ xs) ys ax bx (az, als) (bz, bs) (oz, os) (zz, d) (c, c', cs) ks =
    let last : h.prev x ≢ a = prev-All (λ y. y ≢ a) h z x xs az (All-split _ xs ys als).0 cs in
    let first : h.next x ≢ z =
      next-All (λ y. y ≢ z) h x b ys (λ eq. bz (sym eq)) (All-split _ xs ys zz).1 ks in
    (ground arith, ground arith, Chain-removed h z b x xs ys oz bx zz bs os d cs ks)
