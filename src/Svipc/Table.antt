-- ===== src/Svipc/Table.antt =====
-- What semaphore sets and message queues share: results of system calls, and a list of objects
-- that is searched from its front (`llist_iterate_select`). A pointer to an object stands for the
-- object's id, since ids are not used again.
pub mod Laws
use posnk.Base.{
  ℕ, Bool, true, false, if◌then◌else◌, Option, none, some, List, [], ◌∷◌, ◌==◌, arith, ◌≡◌, refl,
  ap, Bool-cases, inl, inr,
}

-- The values of `syscall_errno` that svipc sets.
pub data Errno : Type 0 where
  eperm enoent eintr e2big eagain enomem eacces efault eexist einval enfile efbig enomsg eidrm :
      Errno

-- What a system call returns: a value, or -1 with `syscall_errno` set.
pub data Sys (A : Type 0) : Type 0 where
  value : A → Sys A
  fails : Errno → Sys A

-- `id == -1`, the id that cannot be allocated, is `none`.
module _ {A : Type 0} where
  -- The first node that the iterator selects.
  unfoldable pub find : (A → Bool) → List A → Option A
  find p [] = none
  find p (x ∷ xs) = if p x then some x else find p xs

  -- Writes through a pointer to that node.
  unfoldable pub update : (A → Bool) → (A → A) → List A → List A
  update p f [] = []
  update p f (x ∷ xs) = if p x then f x ∷ xs else x ∷ update p f xs

  -- `llist_unlink` of that node.
  unfoldable pub remove : (A → Bool) → List A → List A
  remove p [] = []
  remove p (x ∷ xs) = if p x then xs else x ∷ remove p xs

  -- A write that keeps the node selected is found again.
  pub find-update :
      (p : A → Bool) (f : A → A) (xs : List A) {x : A}
      → find p xs ≡ some x
      → p (f x) ≡ true
      → find p (update p f xs) ≡ some (f x)
  unfolding find update
  find-update p f [] h k = ground arith
  find-update p f (y ∷ ys) {x} h k = elim (Bool-cases (p y)) [
    | inl e ↦ rw (e, find) (ground arith)
    | inr e ↦ rw (e, find, e) (find-update p f ys (rw e at h) k)
  ]

  -- A write of what is there changes nothing.
  pub update_self :
      (p : A → Bool) (f : A → A) (xs : List A) {x : A}
      → find p xs ≡ some x
      → f x ≡ x
      → update p f xs ≡ xs
  unfolding find update
  update_self p f [] h k = refl
  update_self p f (y ∷ ys) {x} h k = elim (Bool-cases (p y)) [
    | inl e ↦ ground arith
    | inr e ↦ rw e (ap (λ zs. y ∷ zs) (update_self p f ys (rw e at h) k))
  ]

  -- Nothing is written if no node is selected.
  pub update-none : (p : A → Bool) (f : A → A) (xs : List A) → find p xs ≡ none → update p f xs ≡ xs
  unfolding find update
  update-none p f [] h = refl
  update-none p f (y ∷ ys) h = elim (Bool-cases (p y)) [
    | inl e ↦ ground arith
    | inr e ↦ rw e (ap (λ zs. y ∷ zs) (update-none p f ys (rw e at h)))
  ]
