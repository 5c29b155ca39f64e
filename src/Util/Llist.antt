-- ===== src/Util/Llist.antt =====
-- util/llist.c: doubly linked rings. The `next` and `prev` of every node, by its address; 0 is NULL.
-- `none` is a failed assertion, a dereference of NULL, or the end of the fuel of a loop.
pub mod Chain
pub mod Ring
pub mod Operations
pub mod Loops
use posnk.Base.{
  ℕ, zero, suc, ◌+◌, Bool, true, false, not, ◌&&◌, ◌||◌, ◌==◌, if◌then◌else◌, Option, none, some,
}

-- `struct llist`.
pub record Links : Type 0 where
  pub next : ℕ → ℕ
  pub prev : ℕ → ℕ

abbrev pub null : ℕ
null = 0

abbrev pub upd : (ℕ → ℕ) → ℕ → ℕ → ℕ → ℕ
upd f a v c = if c == a then v else f c

abbrev pub set_next : ℕ → ℕ → Links → Links
set_next a v h = record h { next = upd h.next a v }

abbrev pub set_prev : ℕ → ℕ → Links → Links
set_prev a v h = record h { prev = upd h.prev a v }

-- A pointer that is dereferenced, or asserted not to be NULL.
abbrev pub deref {ℓ} : {A : Type ℓ} → ℕ → Option A → Option A
deref p o = if p == null then none else o

unfoldable pub llist_get_first : ℕ → Links → Option ℕ
llist_get_first list h = deref list (some (if h.next list == list then null else h.next list))

unfoldable pub llist_get_last : ℕ → Links → Option ℕ
llist_get_last list h = deref list (some (if h.prev list == list then null else h.prev list))

unfoldable pub llist_add_end : (list entry : ℕ) → Links → Option Links
llist_add_end list entry h = deref list (
    deref entry (
      let h₁ = set_next entry list (set_prev entry (h.prev list) h) in
      deref (h₁.prev list) (some (set_prev list entry (set_next (h₁.prev list) entry h₁)))))

-- An entry that is in no list has two null pointers.
unfoldable pub llist_unlink : ℕ → Links → Option Links
llist_unlink entry h =
    let p = h.prev entry == null in
    let n = h.next entry == null in
    deref entry (
      if (not p && not n) || (p && n)
      then (let h₁ = if p then h else set_next (h.prev entry) (h.next entry) h in
          let h₂ =
            if h₁.next entry == null then h₁ else set_prev (h₁.next entry) (h₁.prev entry) h₁ in
          some (set_prev entry null (set_next entry null h₂)))
      else none)

-- An empty list gives NULL.
abbrev unlinked : ℕ → ℕ → Links → Option (ℕ × Links)
unlinked list result h =
    if result == list
    then some (null, h)
    else elim (llist_unlink result h) [ none ↦ none | some h' ↦ some (result, h') ]

unfoldable pub llist_remove_last : ℕ → Links → Option (ℕ × Links)
unfolding llist_unlink
llist_remove_last list h = deref list (unlinked list (h.prev list) h)

unfoldable pub llist_remove_first : ℕ → Links → Option (ℕ × Links)
unfolding llist_unlink
llist_remove_first list h = deref list (unlinked list (h.next list) h)

unfoldable pub llist_create : ℕ → Links → Option Links
llist_create list h = deref list (some (set_prev list list (set_next list list h)))

-- The loop from `work` on.
unfoldable pub count_from : ℕ → (list work size : ℕ) → Links → Option ℕ
count_from zero list work size h = none
count_from (suc k) list work size h =
    let rest = count_from k list (h.next work) (size + 1) h in
    deref work (if list == work then some size else rest)

unfoldable pub llist_size : ℕ → ℕ → Links → Option ℕ
unfolding count_from
llist_size fuel list h = deref list (count_from fuel list (h.next list) 0 h)

-- The loop from `work` on; the first node that the iterator selects, or NULL.
unfoldable pub select_from : ℕ → (ℕ → Bool) → (list work : ℕ) → Links → Option ℕ
select_from zero iterator list work h = none
select_from (suc k) iterator list work h =
    let rest = select_from k iterator list (h.next work) h in
    deref work (if list == work then some null else if iterator work then some work else rest)

unfoldable pub llist_iterate_select : ℕ → ℕ → (ℕ → Bool) → Links → Option ℕ
unfolding select_from
llist_iterate_select fuel list iterator h =
    deref list (select_from fuel iterator list (h.next list) h)
