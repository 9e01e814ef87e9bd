-- ===== src/Rbtree/Place.antt =====
-- A tree of rbtree.c around a place in it: what stands above and beside a part that is changed.
use t_visor.Prelude.{
  ℕ, suc, ◌≡◌, ◌≢◌, refl, ap, ◌∙◌, Bool, true, false, ◌∷◌, ◌++◌, arith, Bool-cases, inl, inr,
}
use t_visor.Rbtree.{Ptr, null, Heap}
use t_visor.Rbtree.Shape.{Tree, leaf, node, root, entries, within, IsDistinct, Under, Is, SameAt}

-- The part is the whole tree, or it hangs on the left or on the right of a node.
pub data Place : Type 0 where
  whole : Place
  as_left : Place → (p : Ptr) → (c : Bool) → (k v : ℕ) → (r : Tree) → Place
  as_right : Place → (l : Tree) → (p : Ptr) → (c : Bool) → (k v : ℕ) → Place

abbrev pub plug : Tree → Place → Tree
plug t whole = t
plug t (as_left u p c k v r) = plug (node t p c k v r) u
plug t (as_right u l p c k v) = plug (node l p c k v t) u

abbrev pub up_of : Place → Ptr
up_of whole = null
up_of (as_left u p c k v r) = p
up_of (as_right u l p c k v) = p

abbrev pub depth : Place → ℕ
depth whole = 0
depth (as_left u p c k v r) = suc (depth u)
depth (as_right u l p c k v) = suc (depth u)

pub entries-plug :
    (s t : Tree) (u : Place) → entries s ≡ entries t → entries (plug s u) ≡ entries (plug t u)
entries-plug s t whole e = e
entries-plug s t (as_left u p c k v r) e =
    entries-plug (node s p c k v r) (node t p c k v r) u (ap (λ xs. xs ++ (k, v) ∷ entries r) e)
entries-plug s t (as_right u l p c k v) e =
    entries-plug (node l p c k v s) (node l p c k v t) u (ap (λ xs. entries l ++ (k, v) ∷ xs) e)

pub Is-part : (h : Heap) (t : Tree) (u : Place) → Is h (plug t u) → Is h t
Is-part h t whole i = i
Is-part h t (as_left u p c k v r) i = (Is-part h (node t p c k v r) u i).3
Is-part h t (as_right u l p c k v) i = (Is-part h (node l p c k v t) u i).4

pub IsDistinct-part : (t : Tree) (u : Place) → IsDistinct (plug t u) → IsDistinct t
IsDistinct-part t whole d = d
IsDistinct-part t (as_left u p c k v r) d = (IsDistinct-part (node t p c k v r) u d).3
IsDistinct-part t (as_right u l p c k v) d = (IsDistinct-part (node l p c k v t) u d).4

-- The nodes of `t` are among those of `s`.
abbrev pub Inside : Tree → Tree → Type 0
Inside t s = (q : Ptr) → within q t ≡ true → within q s ≡ true

stays_out : (s t : Tree) → Inside t s → (q : Ptr) → within q s ≡ false → within q t ≡ false
stays_out s t i q o = elim (Bool-cases (within q t)) [ inl y ↦ absurd (cc (i q y)) | inr n ↦ n ]

Inside-left :
    (s t : Tree) (p : Ptr) (c : Bool) (k v : ℕ) (r : Tree)
    → Inside t s
    → Inside (node t p c k v r) (node s p c k v r)
Inside-left s t p c k v r i q w = ground (arith, i q)

Inside-right :
    (l : Tree) (p : Ptr) (c : Bool) (k v : ℕ) (s t : Tree)
    → Inside t s
    → Inside (node l p c k v t) (node l p c k v s)
Inside-right l p c k v s t i q w = ground (arith, i q)

pub IsDistinct-plug :
    (s t : Tree) (u : Place)
    → IsDistinct (plug s u)
    → IsDistinct t
    → Inside t s
    → IsDistinct (plug t u)
IsDistinct-plug s t whole d e i = e
IsDistinct-plug s t (as_left u p c k v r) d e i =
    let (ps, pr, a, ds, dr) = IsDistinct-part (node s p c k v r) u d in
    IsDistinct-plug (node s p c k v r) (node t p c k v r) u d
      (stays_out s t i p ps, pr, λ q w. a q (i q w), e, dr) (Inside-left s t p c k v r i)
IsDistinct-plug s t (as_right u l p c k v) d e i =
    let (pl, ps, a, dl, ds) = IsDistinct-part (node l p c k v s) u d in
    IsDistinct-plug (node l p c k v s) (node l p c k v t) u d
      (pl, stays_out s t i p ps, λ q w. stays_out s t i q (a q w), dl, e)
      (Inside-right l p c k v s t i)

-- The part is nowhere null, and its top's parent is the node above.
pub par-up :
    (h : Heap) (t : Tree) (u : Place)
    → Is h (plug t u)
    → h.par (root (plug t u)) ≡ null
    → root t ≢ null
    → h.par (root t) ≡ up_of u
par-up h t whole i e n = e
par-up h leaf (as_left u p c k v r) i e n = absurd (n refl)
par-up h (node a q d m w b) (as_left u p c k v r) i e n =
    (Is-part h (node (node a q d m w b) p c k v r) u i).1
par-up h leaf (as_right u l p c k v) i e n = absurd (n refl)
par-up h (node a q d m w b) (as_right u l p c k v) i e n =
    (Is-part h (node l p c k v (node a q d m w b)) u i).2

-- `g` is `h` outside of `t`.
abbrev pub SameBeside : Heap → Heap → Tree → Type 0
SameBeside h g t = (q : Ptr) → within q t ≡ false → SameAt h g q × (q ≢ null → g.par q ≡ h.par q)

pub Under-beside :
    (h g : Heap) (p : Ptr) (t : Tree)
    → Under h p t
    → Is h t
    → (root t ≢ null → g.par (root t) ≡ h.par (root t))
    → Under g p t
Under-beside h g p leaf u i f = tt
Under-beside h g p (node l q c k v r) u i f = f i.0.not_null ∙ u
