-- ===== src/Rbtree/Standing.antt =====
-- A tree of rbtree.c that stands in the heap at its `head`, with a black top.
use t_visor.Prelude.{ℕ, ◌≡◌, ◌≢◌, refl, Bool, true, false}
use t_visor.Rbtree.{null, Heap}
use t_visor.Rbtree.Shape.{Tree, leaf, node, root, within, IsDistinct, Is}
use t_visor.Rbtree.Parts.{out}
use t_visor.Rbtree.Place.{Place, whole, as_left, as_right, plug, up_of, Is-part}

-- The colour of the top; NULL counts as black.
abbrev pub red_of : Tree → Bool
red_of leaf = false
red_of (node l p c k v r) = c

abbrev pub is_whole : Place → Bool
is_whole whole = true
is_whole (as_left u p c k v r) = false
is_whole (as_right u l p c k v) = false

root-plug : (s t : Tree) (u : Place) → root s ≡ root t → root (plug s u) ≡ root (plug t u)
root-plug s t whole e = e
root-plug s t (as_left u p c k v r) e = root-plug (node s p c k v r) (node t p c k v r) u refl
root-plug s t (as_right u l p c k v) e = root-plug (node l p c k v s) (node l p c k v t) u refl

red_of-plug : (s t : Tree) (u : Place) → red_of s ≡ red_of t → red_of (plug s u) ≡ red_of (plug t u)
red_of-plug s t whole e = e
red_of-plug s t (as_left u p c k v r) e = red_of-plug (node s p c k v r) (node t p c k v r) u refl
red_of-plug s t (as_right u l p c k v) e = red_of-plug (node l p c k v s) (node l p c k v t) u refl

-- A part that is not the whole decides nothing about the top.
pub same_top :
    (s t : Tree) (u : Place)
    → is_whole u ≡ false
    → (root (plug s u) ≡ root (plug t u)) × (red_of (plug s u) ≡ red_of (plug t u))
same_top s t whole e = absurd cc
same_top s t (as_left u p c k v r) e = (
  root-plug (node s p c k v r) (node t p c k v r) u refl,
  red_of-plug (node s p c k v r) (node t p c k v r) u refl,
)
same_top s t (as_right u l p c k v) e = (
  root-plug (node l p c k v s) (node l p c k v t) u refl,
  red_of-plug (node l p c k v s) (node l p c k v t) u refl,
)

pub top-out :
    (s : Tree) (u : Place)
    → IsDistinct (plug s u)
    → is_whole u ≡ false
    → within (root (plug s u)) s ≡ false
top-out s whole d e = absurd cc
top-out s (as_left whole p c k v r) d e = d.0
top-out s (as_right whole l p c k v) d e = d.1
top-out s (as_left (as_left u q b m w a) p c k v r) d e =
    let t = node s p c k v r in
    (out s p c k v r (root (plug t (as_left u q b m w a)))
      (top-out t (as_left u q b m w a) d refl)).1
top-out s (as_left (as_right u a q b m w) p c k v r) d e =
    let t = node s p c k v r in
    (out s p c k v r (root (plug t (as_right u a q b m w)))
      (top-out t (as_right u a q b m w) d refl)).1
top-out s (as_right (as_left u q b m w a) l p c k v) d e =
    let t = node l p c k v s in
    (out l p c k v s (root (plug t (as_left u q b m w a)))
      (top-out t (as_left u q b m w a) d refl)).2
top-out s (as_right (as_right u a q b m w) l p c k v) d e =
    let t = node l p c k v s in
    (out l p c k v s (root (plug t (as_right u a q b m w)))
      (top-out t (as_right u a q b m w) d refl)).2

pub root-ne :
    (h : Heap) (s : Tree) (u : Place) → Is h (plug s u) → root s ≢ null → root (plug s u) ≢ null
root-ne h s whole i n = n
root-ne h s (as_left u p c k v r) i n =
    root-ne h (node s p c k v r) u i (Is-part h (node s p c k v r) u i).0.not_null
root-ne h s (as_right u l p c k v) i n =
    root-ne h (node l p c k v s) u i (Is-part h (node l p c k v s) u i).0.not_null

pub up-ne :
    (h : Heap) (s : Tree) (u : Place) → Is h (plug s u) → is_whole u ≡ false → up_of u ≢ null
up-ne h s whole i e = absurd cc
up-ne h s (as_left u p c k v r) i e = (Is-part h (node s p c k v r) u i).0.not_null
up-ne h s (as_right u l p c k v) i e = (Is-part h (node l p c k v s) u i).0.not_null

-- The heap holds the tree as the tree number `tree`, with a black top.
pub record Standing (h : Heap) (tree : ℕ) (t : Tree) : Type 0 where
  pub holds : Is h t
  pub distinct : IsDistinct t
  pub parent : root t ≢ null → h.par (root t) ≡ null
  pub head : h.head tree ≡ root t
  pub black : red_of t ≡ false
