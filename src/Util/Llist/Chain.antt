-- ===== src/Util/Llist/Chain.antt =====
-- A stretch of a ring: from `a` the `next` pointers lead through the nodes `xs` to `b`, and the
-- `prev` pointers lead back.
use posnk.Base.{ℕ, ◌≡◌, ◌≢◌, List, [], ◌∷◌, ◌++◌, All, arith}
use posnk.Util.Llist.{Links}

unfoldable pub Chain : Links → ℕ → List ℕ → ℕ → Type 0
Chain h a [] b = (h.next a ≡ b) × (h.prev b ≡ a)
Chain h a (x ∷ xs) b = (h.next a ≡ x) × (h.prev x ≡ a) × Chain h x xs b

-- The nodes of a list are not `a`.
abbrev pub Avoids : ℕ → List ℕ → Type 0
Avoids a xs = All (λ x. x ≢ a) xs

abbrev pub Distinct : List ℕ → Type 0
Distinct [] = Unit
Distinct (x ∷ xs) = Avoids x xs × Distinct xs

-- A chain depends on the `next` of its first node, both pointers of the others, and the `prev` of
-- its end.
pub Chain-frame :
    (h g : Links) (a b : ℕ) (xs : List ℕ)
    → g.next a ≡ h.next a
    → g.prev b ≡ h.prev b
    → All (λ x. (g.next x ≡ h.next x) × (g.prev x ≡ h.prev x)) xs
    → Chain h a xs b
    → Chain g a xs b
unfolding Chain
Chain-frame h g a b [] n p same c = ground arith
Chain-frame h g a b (x ∷ xs) n p (same, rest) (c, c', cs) =
    (ground arith, ground arith, Chain-frame h g x b xs same.0 p rest cs)

pub Chain-split :
    (h : Links) (a b x : ℕ) (xs ys : List ℕ)
    → Chain h a (xs ++ (x ∷ ys)) b
    → Chain h a xs x × Chain h x ys b
unfolding Chain
Chain-split h a b x [] ys (c, c', cs) = ((c, c'), cs)
Chain-split h a b x (y ∷ xs) ys (c, c', cs) =
    let (l, r) = Chain-split h y b x xs ys cs in ((c, c', l), r)

pub Chain-join :
    (h : Links) (a b x : ℕ) (xs ys : List ℕ)
    → Chain h a xs x
    → Chain h x ys b
    → Chain h a (xs ++ (x ∷ ys)) b
unfolding Chain
Chain-join h a b x [] ys (c, c') cs = (c, c', cs)
Chain-join h a b x (y ∷ xs) ys (c, c', l) cs = (c, c', Chain-join h y b x xs ys l cs)
