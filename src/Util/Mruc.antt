-- ===== src/Util/Mruc.antt =====
-- util/mruc.c: a hash table of entries that also stand in a list, the least recently used first.
-- One cache, whose list head has the address `mrul`. `none` is a failed assertion, a dereference of
-- NULL, or the end of the fuel of a loop.
pub mod Members
pub mod Valid
pub mod Get
pub mod Remove
pub mod Removal
pub mod Add
pub mod Adding
pub mod Evict
use posnk.Base.{
  ℕ, zero, suc, ◌+◌, ◌-◌, ◌%◌, ◌^◌, Bool, true, false, ◌==◌, ltb, if◌then◌else◌, Option, none, some,
  bit_and,
}
use posnk.Util.Llist.{
  Links, null, upd, set_next, set_prev, deref, llist_get_first, llist_get_last, llist_add_end,
  llist_unlink, llist_create,
}

-- `struct mruc` and the entries: their list links, bucket links, cache pointers and hashes.
-- `csize`, `tsize` and `count` are 32-bit patterns.
pub record Mruc : Type 0 where
  pub table : ℕ → ℕ
  pub tsize : ℕ
  pub count : ℕ
  pub csize : ℕ
  pub mrul : ℕ
  pub links : Links
  pub bkt : Links
  pub owned : ℕ → Bool
  pub hash : ℕ → ℕ

-- The eviction callback.
abbrev pub Evictor : Type 0
Evictor = ℕ → Mruc → Option Mruc

unfoldable pub mruc_get_lru : Mruc → Option ℕ
unfolding llist_get_first
mruc_get_lru cache = llist_get_first cache.mrul cache.links

unfoldable pub mruc_get_mru : Mruc → Option ℕ
unfolding llist_get_last
mruc_get_mru cache = llist_get_last cache.mrul cache.links

unfoldable pub mruc_create : (csize tsize : ℕ) → Mruc → Option Mruc
unfolding llist_create
mruc_create csize tsize cache = elim (llist_create cache.mrul cache.links) [
  | none ↦ none
  | some l ↦ some (record cache {
    csize = csize;
    tsize = tsize;
    count = 0;
    table = λ k. if ltb k tsize then null else cache.table k;
    links = l;
  })
]

abbrev with_links : Option Links → Mruc → Option Mruc
with_links o cache = elim o [ none ↦ none | some l ↦ some (record cache { links = l }) ]

-- `entry->cache`, asserted not to be NULL.
unfoldable pub mruc_bump : ℕ → Mruc → Option Mruc
mruc_bump entry cache = deref entry (
    if cache.owned entry
    then elim (llist_unlink entry cache.links) [
      | none ↦ none
      | some l ↦ with_links (llist_add_end cache.mrul entry l) cache
    ]
    else none)

-- `hash & (tsize - 1)`.
abbrev pub slot : Mruc → ℕ → ℕ
slot cache hash = bit_and hash ((cache.tsize + 2 ^ 64 - 1) % 2 ^ 64)

abbrev pub owns : Bool → ℕ → Mruc → Mruc
owns b entry cache = record cache { owned = λ e. if e == entry then b else cache.owned e }

-- The entry goes to the end of the ring of its bucket.
unfoldable pub bucket_add : (entry bkt : ℕ) → Links → Option Links
bucket_add entry bkt b =
    let b₁ = set_prev entry (b.prev bkt) (set_next entry bkt b) in
    deref (b₁.prev bkt) (some (set_prev bkt entry (set_next (b₁.prev bkt) entry b₁)))

-- The entry is in its bucket.
unfoldable pub insert_bucket : ℕ → ℕ → Mruc → Option Mruc
insert_bucket entry hash cache =
    let k = slot cache hash in
    if cache.table k == null
    then some (record cache {
      bkt = set_prev entry entry (set_next entry entry cache.bkt);
      table = upd cache.table k entry;
    })
    else elim (bucket_add entry (cache.table k) cache.bkt) [
      | none ↦ none
      | some b ↦ some (record cache { bkt = b })
    ]

abbrev pub int_lt : ℕ → ℕ → Bool
int_lt a b = ltb ((a + 2 ^ 31) % 2 ^ 32) ((b + 2 ^ 31) % 2 ^ 32)

-- Counted, and the least recently used entry is evicted if the cache holds too many.
unfoldable pub count_entry : Evictor → Mruc → Option Mruc
unfolding mruc_get_lru
count_entry evictor cache =
    let cache' = record cache { count = (cache.count + 1) % 2 ^ 32 } in
    if int_lt cache'.csize cache'.count
    then elim (mruc_get_lru cache') [ none ↦ none | some e ↦ evictor e cache' ]
    else some cache'

unfoldable pub mruc_add : Evictor → (entry hash : ℕ) → Mruc → Option Mruc
mruc_add evictor entry hash cache = deref entry (
    let cache₁ = record (owns true entry cache) { hash = upd cache.hash entry hash } in
    elim (insert_bucket entry hash cache₁) [
      | none ↦ none
      | some cache₂ ↦ elim (with_links (llist_add_end cache.mrul entry cache₂.links) cache₂) [
        | none ↦ none
        | some cache₃ ↦ count_entry evictor cache₃
      ]
    ])

-- The entry leaves its bucket.
unfoldable pub remove_bucket : ℕ → Mruc → Option Mruc
remove_bucket entry cache =
    let k = slot cache (cache.hash entry) in
    let b = cache.bkt in
    if b.next entry == entry
    then some (record cache { table = upd cache.table k null })
    else deref (b.next entry) (
        let b₁ = set_prev (b.next entry) (b.prev entry) b in
        deref (b₁.prev entry) (
          let b₂ = set_next (b₁.prev entry) (b₁.next entry) b₁ in
          some (record cache {
            bkt = b₂;
            table =
                if cache.table k == entry then upd cache.table k (b₂.next entry) else cache.table;
          })))

unfoldable pub mruc_remove : ℕ → Mruc → Option Mruc
mruc_remove entry cache = deref entry (
    if cache.owned entry
    then elim (with_links (llist_unlink entry cache.links) cache) [
      | none ↦ none
      | some cache₁ ↦ elim (remove_bucket entry cache₁) [
        | none ↦ none
        | some cache₂ ↦ some (record (owns false entry cache₂) {
          count = (cache₂.count + 2 ^ 32 - 1) % 2 ^ 32;
          bkt = set_prev entry null (set_next entry null cache₂.bkt);
        })
      ]
    ]
    else none)

-- The loop of mruc_get, `entry` being the entry that is looked at.
unfoldable pub get_from : ℕ → (bkt entry hash : ℕ) → Mruc → Option ℕ
get_from zero bkt entry hash cache = none
get_from (suc n) bkt entry hash cache =
    let next = cache.bkt.next entry in
    let rest = get_from n bkt next hash cache in
    if cache.hash entry == hash
    then some entry
    else if next == bkt
    then some null
    else deref next rest

unfoldable pub mruc_get : ℕ → ℕ → Mruc → Option ℕ
unfolding get_from
mruc_get fuel hash cache =
    let bkt = cache.table (slot cache hash) in
    if bkt == null then some null else get_from fuel bkt bkt hash cache

-- Every entry is evicted, the least recently used first.
unfoldable pub mruc_flush : Evictor → ℕ → Mruc → Option Mruc
unfolding mruc_get_lru
mruc_flush evictor zero cache = none
mruc_flush evictor (suc n) cache = elim (mruc_get_lru cache) [
  | none ↦ none
  | some e ↦
      if e == null
      then some cache
      else elim (evictor e cache) [ none ↦ none | some cache' ↦ mruc_flush evictor n cache' ]
]
