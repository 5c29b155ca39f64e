-- ===== src/Util/Llist/Loops.antt =====
-- The loops over a ring end, and compute on the list that the ring stands for.
use posnk.Base.{
  ℕ, zero, suc, ◌+◌, ◌<◌, ◌≡◌, ◌≢◌, sym, ap, ◌∙◌, Bool, List, [], ◌∷◌, length, arith, Option, none,
  some, ne→==, ==_refl, Bool-cases, inl, inr,
}
use posnk.Svipc.Table.{find}
use posnk.Util.Llist.{Links, null, count_from, llist_size, select_from, llist_iterate_select}
use posnk.Util.Llist.Chain.{Chain, Avoids}
use posnk.Util.Llist.Ring.{IsRing}

count_from_lem :
    (fuel : ℕ) (l a size : ℕ) (xs : List ℕ) (h : Links)
    → length xs < fuel
    → l ≢ null
    → Avoids l xs
    → Avoids null xs
    → Chain h a xs l
    → count_from fuel l (h.next a) size h ≡ some (size + length xs)
unfolding count_from Chain
count_from_lem zero l a size xs h lt l0 o n c = absurd (omega arith)
count_from_lem (suc k) l a size [] h lt l0 o n (c, c') =
    rw (c, ne→== l null l0, ==_refl l) (ap some (omega arith))
count_from_lem (suc k) l a size (x ∷ xs) h lt l0 (o, os) (n, ns) (c, c', cs) =
    rw (c, ne→== x null n, ne→== l x (λ eq. o (sym eq)))
      (count_from_lem k l x (size + 1) xs h (omega arith) l0 os ns cs ∙ ap some (omega arith))

-- With more fuel than entries llist_size ends, and it returns the number of entries.
pub llist_size_lem :
    (fuel : ℕ) (l : ℕ) (xs : List ℕ) (h : Links)
    → IsRing h l xs
    → length xs < fuel
    → llist_size fuel l h ≡ some (length xs)
unfolding llist_size
llist_size_lem fuel l xs h r lt =
    rw (ne→== l null r.there)
      (count_from_lem fuel l l 0 xs h lt r.there r.head r.entries r.chain ∙ ap some (omega arith))

-- NULL where nothing is found.
abbrev pub or_null : Option ℕ → ℕ
or_null none = null
or_null (some x) = x

select_from_lem :
    (fuel : ℕ) (p : ℕ → Bool) (l a : ℕ) (xs : List ℕ) (h : Links)
    → length xs < fuel
    → l ≢ null
    → Avoids l xs
    → Avoids null xs
    → Chain h a xs l
    → select_from fuel p l (h.next a) h ≡ some (or_null (find p xs))
unfolding select_from Chain find
select_from_lem zero p l a xs h lt l0 o n c = absurd (omega arith)
select_from_lem (suc k) p l a [] h lt l0 o n (c, c') = rw (c, ne→== l null l0, ==_refl l)
select_from_lem (suc k) p l a (x ∷ xs) h lt l0 (o, os) (n, ns) (c, c', cs) =
    elim (Bool-cases (p x)) [
      | inl hit ↦ rw (c, ne→== x null n, ne→== l x (λ eq. o (sym eq)), hit)
      | inr miss ↦
          rw (c, ne→== x null n, ne→== l x (λ eq. o (sym eq)), miss)
            (select_from_lem k p l x xs h (omega arith) l0 os ns cs)
    ]

-- With more fuel than entries llist_iterate_select ends, and it returns what `find` returns on the
-- list of the ring: the first entry that the iterator selects, or NULL.
pub llist_iterate_select_lem :
    (fuel : ℕ) (p : ℕ → Bool) (l : ℕ) (xs : List ℕ) (h : Links)
    → IsRing h l xs
    → length xs < fuel
    → llist_iterate_select fuel l p h ≡ some (or_null (find p xs))
unfolding llist_iterate_select
llist_iterate_select_lem fuel p l xs h r lt =
    rw (ne→== l null r.there) (select_from_lem fuel p l l xs h lt r.there r.head r.entries r.chain)
