-- ===== src/Tests/Lists.antt =====
-- Rings and caches.
use posnk.Base.{
  ℕ, ◌≡◌, ◌≢◌, refl, true, ◌==◌, if◌then◌else◌, some, List, [], ◌∷◌, All, arith, Bool-cases, ◌⊎◌,
  inl, inr, ==→eq,
}
use posnk.Util.Llist.{Links, null, llist_unlink, llist_remove_last}
use posnk.Util.Llist.Chain.{Chain}
use posnk.Util.Llist.Ring.{IsRing, removed}
use posnk.Util.Llist.Operations.{llist_unlink_lem}
use posnk.Util.Mruc.{Mruc, slot, mruc_add, get_from, mruc_get, mruc_remove, mruc_flush}
use posnk.Util.Mruc.Members.{has, erase}
use posnk.Util.Mruc.Valid.{IsCache, IsBucket}
use posnk.Util.Mruc.Get.{mruc_get_lem}
use posnk.Util.Mruc.Removal.{mruc_remove_lem}
use posnk.Util.Mruc.Evict.{mruc_add_full, mruc_flush_lem}

-- The head 1 and the entries 10, 20 and 30.
abbrev three : Links
three = record {
  next = λ a. if a == 1 then 10 else if a == 10 then 20 else if a == 20 then 30 else 1;
  prev = λ a. if a == 1 then 30 else if a == 30 then 20 else if a == 20 then 10 else 1;
}

abbrev entries : List ℕ
entries = 10 ∷ 20 ∷ 30 ∷ []

three-IsRing : IsRing three 1 entries
unfolding Chain
three-IsRing = record {
  chain = (refl, refl, (refl, refl, (refl, refl, (refl, refl))));
  head = (omega arith, (omega arith, (omega arith, tt)));
  distinct = ((omega arith, (omega arith, tt)), ((omega arith, tt), (tt, tt)));
  there = omega arith;
  entries = (omega arith, (omega arith, (omega arith, tt)));
}

takes_the_last_off : llist_remove_last 1 three ≡ some (30, removed 30 three)
unfolding llist_remove_last llist_unlink
takes_the_last_off = refl

llist_unlink_lem_example :
    (llist_unlink 20 three ≡ some (removed 20 three))
    × IsRing (removed 20 three) 1 (10 ∷ 30 ∷ [])
    × ((removed 20 three).next 20 ≡ null)
    × ((removed 20 three).prev 20 ≡ null)
llist_unlink_lem_example = llist_unlink_lem three 1 20 (10 ∷ []) (30 ∷ []) three-IsRing

-- Two entries share the first of four buckets.
abbrev cache : Mruc
cache = record {
  table = λ k. if k == 0 then 10 else if k == 1 then 30 else null;
  tsize = 4;
  count = 3;
  csize = 3;
  mrul = 1;
  links = three;
  bkt = record {
    next = λ a. if a == 10 then 20 else if a == 20 then 10 else if a == 30 then 30 else null;
    prev = λ a. if a == 10 then 20 else if a == 20 then 10 else if a == 30 then 30 else null;
  };
  owned = λ a. has a entries;
  hash = λ a. if a == 10 then 4 else if a == 20 then 8 else if a == 30 then 5 else 6;
}

abbrev buckets : ℕ → List ℕ
buckets k = if k == 0 then 10 ∷ 20 ∷ [] else if k == 1 then 30 ∷ [] else []

finds_by_hash : mruc_get 2 8 cache ≡ some 20
unfolding mruc_get get_from
finds_by_hash = refl

IsBucket-buckets : (k : ℕ) → IsBucket cache k (buckets k)
unfolding Chain
IsBucket-buckets k = elim (Bool-cases (k == 0)) [
  | inl first ↦
      rw (first, ==→eq _ _ first)
        (
          refl,
          record {
            chain = (refl, refl, (refl, refl));
            head = (omega arith, tt);
            distinct = (tt, tt);
            there = omega arith;
            entries = (omega arith, tt);
          },
          (refl, (refl, tt)),
        )
  | inr f ↦ elim (Bool-cases (k == 1)) [
    | inl second ↦
        rw (f, second, ==→eq _ _ second)
          (
            refl,
            record {
              chain = (refl, refl);
              head = tt;
              distinct = tt;
              there = omega arith;
              entries = tt;
            },
            (refl, tt),
          )
    | inr s ↦ (let nothing : cache.table k ≡ null = rw (f, s) in rw (f, s) nothing)
  ]
]

cached_entries : (e : ℕ) → has e (buckets (slot cache (cache.hash e))) ≡ has e entries
cached_entries e = elim (Bool-cases (e == 10)) [
  | inl a ↦ rw (==→eq _ _ a)
  | inr a ↦ elim (Bool-cases (e == 20)) [
    | inl b ↦ rw (==→eq _ _ b)
    | inr b ↦ elim (Bool-cases (e == 30)) [
      | inl c ↦ rw (==→eq _ _ c)
      | inr c ↦ rw (a, b, c) (ground (arith, a, b, c))
    ]
  ]
]

cache-IsCache : IsCache cache entries buckets
cache-IsCache = record {
  ring = three-IsRing;
  buckets = λ hash. IsBucket-buckets (slot cache hash);
  cached = cached_entries;
  owners = (refl, (refl, (refl, tt)));
  counted = refl;
  small = omega arith;
}

mruc_get_lem_example :
    (r : ℕ) × (mruc_get 3 5 cache ≡ some r)
    × (((r ≡ null) × All (λ e. cache.hash e ≢ 5) entries)
        ⊎ ((has r entries ≡ true) × (cache.hash r ≡ 5)))
mruc_get_lem_example = mruc_get_lem cache 5 3 entries buckets cache-IsCache (omega arith)

mruc_remove_lem_example :
    (c' : Mruc) × (mruc_remove 10 cache ≡ some c')
    × IsCache c' (erase 10 entries) (λ k. erase 10 (buckets k))
    × (c'.hash ≡ cache.hash)
mruc_remove_lem_example = mruc_remove_lem cache 10 entries buckets cache-IsCache refl

mruc_add_full_example :
    (c' : Mruc) × (bs' : ℕ → List ℕ) × (mruc_add mruc_remove 40 7 cache ≡ some c')
    × IsCache c' (20 ∷ 30 ∷ 40 ∷ []) bs'
    × (c'.hash 40 ≡ 7)
mruc_add_full_example =
    mruc_add_full cache 40 7 entries buckets cache-IsCache refl (omega arith) (omega arith)
      (omega arith) 10 (20 ∷ 30 ∷ []) refl refl

mruc_flush_lem_example :
    (c' : Mruc) × (bs' : ℕ → List ℕ) × (mruc_flush mruc_remove 4 cache ≡ some c')
    × IsCache c' [] bs'
mruc_flush_lem_example = mruc_flush_lem 4 cache entries buckets cache-IsCache (omega arith)
