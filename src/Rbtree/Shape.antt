-- ===== src/Rbtree/Shape.antt =====
-- The trees that a heap of rbtree.c holds.
use t_visor.Prelude.{
  ℕ, ◌≡◌, ◌≢◌, refl, ◌∙◌, Bool, true, false, ◌||◌, List, [], ◌∷◌, ◌++◌, arith, ◌==◌,
}
use t_visor.Rbtree.{Ptr, null, Heap}

-- A node has its address, its colour (is it red?), its key and its value.
pub data Tree : Type 0 where
  leaf : Tree
  node : Tree → (p : Ptr) → (c : Bool) → (k v : ℕ) → Tree → Tree

abbrev pub root : Tree → Ptr
root leaf = null
root (node l p c k v r) = p

-- The entries in order.
abbrev pub entries : Tree → List (ℕ × ℕ)
entries leaf = []
entries (node l p c k v r) = entries l ++ (k, v) ∷ entries r

-- `p` is the address of a node.
abbrev pub within : Ptr → Tree → Bool
within q leaf = false
within q (node l p c k v r) = (q == p) || within q l || within q r

abbrev pub Apart : Tree → Tree → Type 0
Apart s t = (p : Ptr) → within p s ≡ true → within p t ≡ false

-- No address is used twice.
abbrev pub IsDistinct : Tree → Type 0
IsDistinct leaf = Unit {0}
IsDistinct (node l p c k v r) =
    (within p l ≡ false) × (within p r ≡ false) × Apart l r × IsDistinct l × IsDistinct r

-- `p` is the parent of the top of the tree.
abbrev pub Under : Heap → Ptr → Tree → Type 0
Under h p leaf = Unit {0}
Under h p (node l q c k v r) = h.par q ≡ p

-- The fields of the node `p`.
pub record Holds (h : Heap) (l : Ptr) (p : Ptr) (c : Bool) (k v : ℕ) (r : Ptr) : Type 0 where
  pub not_null : p ≢ null
  pub left : h.left p ≡ l
  pub right : h.right p ≡ r
  pub red : h.red p ≡ c
  pub key : h.key p ≡ k
  pub val : h.val p ≡ v

-- The heap holds the tree. The parent of its top is left open.
abbrev pub Is : Heap → Tree → Type 0
Is h leaf = Unit {0}
Is h (node l p c k v r) =
    Holds h (root l) p c k v (root r) × Under h p l × Under h p r × Is h l × Is h r

-- `g` has the fields of `h` at `p`, up to the parent.
pub record SameAt (h g : Heap) (p : Ptr) : Type 0 where
  pub left : g.left p ≡ h.left p
  pub right : g.right p ≡ h.right p
  pub red : g.red p ≡ h.red p
  pub key : g.key p ≡ h.key p
  pub val : g.val p ≡ h.val p

module _ (l : Tree) (p : Ptr) (c : Bool) (k v : ℕ) (r : Tree) where
  pub in_top : within p (node l p c k v r) ≡ true
  in_top = ground arith

  pub in_left : (q : Ptr) → within q l ≡ true → within q (node l p c k v r) ≡ true
  in_left q w = rw w (ground arith)

  pub in_right : (q : Ptr) → within q r ≡ true → within q (node l p c k v r) ≡ true
  in_right q w = rw w (ground arith)

-- A node of a part that the top is not in is another one.
pub ne_of_within : (p q : Ptr) (t : Tree) → within p t ≡ false → within q t ≡ true → q ≢ p
ne_of_within p q t a b e = cc

pub within-root : (l : Tree) → root l ≢ null → within (root l) l ≡ true
within-root leaf n = absurd (n refl)
within-root (node l p c k v r) n = ground arith

Under-same :
    (h g : Heap) (q : Ptr) (t : Tree)
    → Under h q t
    → (within (root t) t ≡ true → g.par (root t) ≡ h.par (root t))
    → Under g q t
Under-same h g q leaf u s = tt
Under-same h g q (node l p c k v r) u s = s (ground arith) ∙ u

-- A tree stays where the fields of its nodes stay, and the parents of all but its top.
pub Is-same :
    (h g : Heap) (t : Tree)
    → Is h t
    → IsDistinct t
    → ((p : Ptr) → within p t ≡ true → SameAt h g p)
    → ((p : Ptr) → within p t ≡ true → p ≢ root t → g.par p ≡ h.par p)
    → Is g t
Is-same h g leaf i d f e = tt
Is-same h g (node l p c k v r) (o, ul, ur, il, ir) (pl, pr, ap, dl, dr) f e =
    let s = f p (in_top l p c k v r) in
    let below_left : (q : Ptr) → within q l ≡ true → g.par q ≡ h.par q =
      λ q w. e q (in_left l p c k v r q w) (ne_of_within p q l pl w) in
    let below_right : (q : Ptr) → within q r ≡ true → g.par q ≡ h.par q =
      λ q w. e q (in_right l p c k v r q w) (ne_of_within p q r pr w) in
    (
      record {
        not_null = o.not_null;
        left = s.left ∙ o.left;
        right = s.right ∙ o.right;
        red = s.red ∙ o.red;
        key = s.key ∙ o.key;
        val = s.val ∙ o.val;
      },
      Under-same h g p l ul (below_left (root l)),
      Under-same h g p r ur (below_right (root r)),
      Is-same h g l il dl (λ q w. f q (in_left l p c k v r q w)) (λ q w n. below_left q w),
      Is-same h g r ir dr (λ q w. f q (in_right l p c k v r q w)) (λ q w n. below_right q w),
    )
