-- ===== src/Rbtree/Turned.antt =====
-- The four cases of `rotate` in rbtree.c, and what a rotation leaves.
use t_visor.Prelude.{ℕ, ◌≡◌, ◌≢◌, sym, ◌∙◌, Bool, false, some, arith}
use t_visor.Rbtree.{
  Ptr, null, Heap, rotate_left_left, rotate_left_right, rotate_right_right, rotate_right_left,
  rotate,
}
use t_visor.Rbtree.Shape.{Tree, leaf, node, root, entries, within, IsDistinct, Is, SameAt}
use t_visor.Rbtree.Parts.{Out, out_all, left_left, left_right, right_right, right_left, balanced}
use t_visor.Rbtree.Links.{Moved}
use t_visor.Rbtree.Place.{Inside}

module _ (h : Heap) (gpar par tar : Ptr) (ng : gpar ≢ null) (np : par ≢ null) (nt : tar ≢ null)
    (up : h.par tar ≡ par) (uup : h.par par ≡ gpar) where
  pub picks_left_left :
      h.left gpar ≡ par → h.left par ≡ tar → rotate tar h ≡ some (rotate_left_left gpar par tar h)
  unfolding rotate
  picks_left_left e f = ground arith

  pub picks_left_right :
      h.left gpar ≡ par → h.left par ≢ tar → rotate tar h ≡ some (rotate_left_right gpar par tar h)
  unfolding rotate
  picks_left_right e f = ground arith

  pub picks_right_right :
      h.left gpar ≢ par
      → h.right par ≡ tar
      → rotate tar h ≡ some (rotate_right_right gpar par tar h)
  unfolding rotate
  picks_right_right e f = ground arith

  pub picks_right_left :
      h.left gpar ≢ par → h.right par ≢ tar → rotate tar h ≡ some (rotate_right_left gpar par tar h)
  unfolding rotate
  picks_right_left e f = ground arith

-- At `up` only the child `old` changed, into `new`.
pub record Relinked (h g : Heap) (up old new : Ptr) : Type 0 where
  pub key : g.key up ≡ h.key up
  pub val : g.val up ≡ h.val up
  pub red : g.red up ≡ h.red up
  pub on_left : h.left up ≡ old → (g.left up ≡ new) × (g.right up ≡ h.right up)
  pub on_right : h.left up ≢ old → h.right up ≡ old → (g.right up ≡ new) × (g.left up ≡ h.left up)

pub Relinked-same : (h g : Heap) (up old : Ptr) → SameAt h g up → Relinked h g up old old
Relinked-same h g up old s = record {
  key = s.key;
  val = s.val;
  red = s.red;
  on_left = λ e. (s.left ∙ e, s.right);
  on_right = λ n e. (s.right ∙ e, s.left);
}

pub ll-Relinked :
    (h : Heap) (gpar par tar : Ptr)
    → h.par gpar ≢ null
    → h.par gpar ≢ gpar
    → h.par gpar ≢ par
    → Relinked h (rotate_left_left gpar par tar h).1 (h.par gpar) gpar par
unfolding rotate_left_left
ll-Relinked h gpar par tar n a b = record {
  key = ground arith;
  val = ground arith;
  red = ground arith;
  on_left = λ e. (ground arith, ground arith);
  on_right = λ x e. (ground arith, ground arith);
}

-- `tar` is a grandchild of the top of the tree.
pub data Bent : Tree → Ptr → Type 0 where
  far_left :
      (a b c d : Tree) (x y z : Ptr) (cx cy cz : Bool) (kx vx ky vy kz vz : ℕ)
      → Bent (left_left a b c d x y z cx cy cz kx vx ky vy kz vz) y
  near_left :
      (a b c d : Tree) (x y z : Ptr) (cx cy cz : Bool) (kx vx ky vy kz vz : ℕ)
      → Bent (left_right a b c d x y z cx cy cz kx vx ky vy kz vz) x
  far_right :
      (a b c d : Tree) (x y z : Ptr) (cx cy cz : Bool) (kx vx ky vy kz vz : ℕ)
      → Bent (right_right a b c d x y z cx cy cz kx vx ky vy kz vz) x
  near_right :
      (a b c d : Tree) (x y z : Ptr) (cx cy cz : Bool) (kx vx ky vy kz vz : ℕ)
      → Bent (right_left a b c d x y z cx cy cz kx vx ky vy kz vz) x

-- The result of a rotation of the tree `s`: it holds a tree with the same entries in order, whose top is
-- the result and hangs where `s` did. `up` is the parent of `s`.
pub record Turned (h : Heap) (s : Tree) (up next : Ptr) (g : Heap) : Type 0 where
  pub turned : Tree
  pub holds : Is g turned
  pub distinct : IsDistinct turned
  pub top : root turned ≡ next
  pub not_null : next ≢ null
  pub same_entries : entries turned ≡ entries s
  pub inside : Inside turned s
  pub parent : g.par next ≡ up
  pub same_head : g.head ≡ h.head
  pub same_par : (q : Ptr) → within q s ≡ false → q ≢ null → g.par q ≡ h.par q
  pub same : (q : Ptr) → within q s ≡ false → q ≢ up → SameAt h g q
  pub linked : up ≢ null → Relinked h g up (root s) next

pub top-ne : (t : Tree) (q : Ptr) → q ≢ null → within q t ≡ false → root t ≢ q
top-ne leaf q n o = λ e. n (sym e)
top-ne (node l p c k v r) q n o = ground arith

pub ll_head : (h : Heap) (gpar par tar : Ptr) → (rotate_left_left gpar par tar h).1.head ≡ h.head
unfolding rotate_left_left
ll_head h gpar par tar = ground arith

pub balanced-Out :
    (a b c d : Tree) (x y z : Ptr) (cx cy cz : Bool) (kx vx ky vy kz vz : ℕ) (q : Ptr)
    → q ≢ x
    → q ≢ y
    → q ≢ z
    → Out a b c d q
    → within q (balanced a b c d x y z cx cy cz kx vx ky vy kz vz) ≡ false
balanced-Out a b c d x y z cx cy cz kx vx ky vy kz vz q nx ny nz (oa, ob, oc, od) =
    out_all (node a y cy ky vy b) x cx kx vx (node c z cz kz vz d) q nx
      (out_all a y cy ky vy b q ny oa ob) (out_all c z cz kz vz d q nz oc od)

-- What a rotation leaves alone.
pub Moved-same :
    (h g : Heap) (a b c d : Tree) (x y z up ex q : Ptr)
    → Moved h g (root a) (root b) (root c) (root d) x y z up ex
    → q ≢ x
    → q ≢ y
    → q ≢ z
    → Out a b c d q
    → q ≢ null
    → g.par q ≡ h.par q
Moved-same h g a b c d x y z up ex q m nx ny nz (oa, ob, oc, od) n =
    m.par_kept q n nx ny nz (λ e. top-ne a q n oa (sym e)) (λ e. top-ne b q n ob (sym e))
      (λ e. top-ne c q n oc (sym e)) (λ e. top-ne d q n od (sym e))
