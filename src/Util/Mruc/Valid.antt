-- ===== src/Util/Mruc/Valid.antt =====
-- What a cache holds: a list of entries, the least recently used first, and its buckets.
use posnk.Base.{ℕ, ◌<◌, ◌^◌, ◌≡◌, ◌≢◌, sym, ◌∙◌, true, List, [], ◌∷◌, All, All-map, length}
use posnk.Util.Llist.{Links, null}
use posnk.Util.Llist.Chain.{Chain-frame}
use posnk.Util.Llist.Ring.{IsRing}
use posnk.Util.Mruc.{Mruc, slot}
use posnk.Util.Mruc.Members.{has}

-- The bucket `k` holds these entries, in the order of its ring; each has a hash that belongs there.
abbrev pub IsBucket : Mruc → ℕ → List ℕ → Type 0
IsBucket c k [] = c.table k ≡ null
IsBucket c k (b ∷ ys) =
    (c.table k ≡ b) × IsRing c.bkt b ys × All (λ e. slot c (c.hash e) ≡ k) (b ∷ ys)

-- A cache that holds the entries `xs`; `bs` are its buckets.
pub record IsCache (c : Mruc) (xs : List ℕ) (bs : ℕ → List ℕ) : Type 0 where
  pub ring : IsRing c.links c.mrul xs
  pub buckets : (hash : ℕ) → IsBucket c (slot c hash) (bs (slot c hash))
  pub cached : (e : ℕ) → has e (bs (slot c (c.hash e))) ≡ has e xs
  pub owners : All (λ e. c.owned e ≡ true) xs
  pub counted : c.count ≡ length xs
  pub small : length xs < 2 ^ 31

pub IsRing-frame :
    (h g : Links) (l : ℕ) (xs : List ℕ)
    → All (λ x. (g.next x ≡ h.next x) × (g.prev x ≡ h.prev x)) (l ∷ xs)
    → IsRing h l xs
    → IsRing g l xs
IsRing-frame h g l xs ((n, p), same) r = record {
  chain = Chain-frame h g l l xs n p same r.chain;
  head = r.head;
  distinct = r.distinct;
  there = r.there;
  entries = r.entries;
}

pub IsBucket-slot :
    (c : Mruc) (k : ℕ) (ys : List ℕ) → IsBucket c k ys → All (λ e. slot c (c.hash e) ≡ k) ys
IsBucket-slot c k [] b = tt
IsBucket-slot c k (y ∷ ys) (t, r, s) = s

module _ (c : Mruc) (e : ℕ) where
  abbrev pub home : ℕ
  home = slot c (c.hash e)

  abbrev pub InHome : ℕ → Type 0
  InHome x = slot c (c.hash x) ≡ home

  -- The bucket links and the table after the bucket of `e` has changed to `ys`, and no other.
  pub record Changes (b : Links) (t : ℕ → ℕ) (ys : List ℕ) : Type 0 where
    pub bucket : IsBucket (record c { bkt = b; table = t }) home ys
    pub tables : (k : ℕ) → k ≢ home → t k ≡ c.table k
    pub links :
        (x : ℕ) → slot c (c.hash x) ≢ home → (b.next x ≡ c.bkt.next x) × (b.prev x ≡ c.bkt.prev x)

  -- The buckets elsewhere are as they were.
  pub Changes-frame :
      (b : Links) (t : ℕ → ℕ) (zs : List ℕ) (k : ℕ) (ys : List ℕ)
      → Changes b t zs
      → k ≢ home
      → IsBucket c k ys
      → IsBucket (record c { bkt = b; table = t }) k ys
  Changes-frame b t zs k [] change other bucket = change.tables k other ∙ bucket
  Changes-frame b t zs k (y ∷ ys) change other (head, ring, slots) = (
    change.tables k other ∙ head,
    IsRing-frame c.bkt b y ys
        (All-map _ (y ∷ ys) (λ x s. change.links x λ h. other (sym s ∙ h)) slots) ring,
    slots,
  )
