-- ===== src/Rbtree/Around.antt =====
-- A rotation of rbtree.c inside a larger tree, and the colours that its insertion paints.
use t_visor.Prelude.{ℕ, ◌≡◌, ◌≢◌, refl, sym, ap, subst, ◌∙◌, Bool, false, arith, ==_self}
use t_visor.Rbtree.{Ptr, null, Heap, paint}
use t_visor.Rbtree.Shape.{
  Tree, leaf, node, root, within, IsDistinct, Under, Holds, Is, SameAt, Is-same, ne_of_within,
}
use t_visor.Rbtree.Parts.{Apart-sym, out}
use t_visor.Rbtree.Balanced.{ne-root}
use t_visor.Rbtree.Rotate.{within_top}
use t_visor.Rbtree.Place.{Place, whole, as_left, as_right, plug, up_of, Is-part, IsDistinct-part}
use t_visor.Rbtree.Plug.{Child, Is-plug, Is-relink}
use t_visor.Rbtree.Turned.{Turned, Relinked}

pub up-out :
    (s : Tree) (u : Place) → IsDistinct (plug s u) → up_of u ≢ null → within (up_of u) s ≡ false
up-out s whole d n = absurd (n refl)
up-out s (as_left u p c k v r) d n = (IsDistinct-part (node s p c k v r) u d).0
up-out s (as_right u l p c k v) d n = (IsDistinct-part (node l p c k v s) u d).1

linked-Child :
    (h g : Heap) (s t : Tree) (u : Place)
    → Is h (plug s u)
    → IsDistinct (plug s u)
    → Is h s
    → root s ≢ null
    → (up_of u ≢ null → Relinked h g (up_of u) (root s) (root t))
    → Child g t u
linked-Child h g s t whole i d is n f = tt
linked-Child h g s t (as_left u p c k v r) i d is n f =
    let o = (Is-part h (node s p c k v r) u i).0 in
    let e = f o.not_null in
    let l = e.on_left o.left in
    record {
      not_null = o.not_null;
      left = l.0;
      right = l.1 ∙ o.right;
      red = e.red ∙ o.red;
      key = e.key ∙ o.key;
      val = e.val ∙ o.val;
    }
linked-Child h g s t (as_right u l p c k v) i d is n f =
    let o = (Is-part h (node l p c k v s) u i).0 in
    let (pl, ps, a, dl, ds) = IsDistinct-part (node l p c k v s) u d in
    let e = f o.not_null in
    let other : h.left p ≢ root s =
      λ z. ne-root h (root s) s l is (within_top s n) (Apart-sym l s a) (sym z ∙ o.left) in
    let r = e.on_right other o.right in
    record {
      not_null = o.not_null;
      left = r.1 ∙ o.left;
      right = r.0;
      red = e.red ∙ o.red;
      key = e.key ∙ o.key;
      val = e.val ∙ o.val;
    }

-- The whole tree after a rotation of a part.
pub Turned-plug :
    (h g : Heap) (s : Tree) (u : Place) (next : Ptr)
    → Is h (plug s u)
    → IsDistinct (plug s u)
    → root s ≢ null
    → (t : Turned h s (up_of u) next g) → Is g (plug t.turned u)
Turned-plug h g s u next i d n t =
    let up : g.par (root t.turned) ≡ up_of u = ap g.par t.top ∙ t.parent in
    let re : up_of u ≢ null → Relinked h g (up_of u) (root s) (root t.turned) =
      λ z. subst (Relinked h g (up_of u) (root s)) (sym t.top) (t.linked z) in
    Is-relink h g s t.turned u i d t.holds up
      (linked-Child h g s t.turned u i d (Is-part h s u i) n re)
      (λ q w z. (t.same q w z, t.same_par q w)) (λ z. t.same_par (up_of u) (up-out s u d z) z)

-- A node is painted.
pub paint-Is :
    (h : Heap) (l : Tree) (p : Ptr) (c : Bool) (k v : ℕ) (r : Tree) (u : Place) (c' : Bool)
    → Is h (plug (node l p c k v r) u)
    → IsDistinct (plug (node l p c k v r) u)
    → Is (paint p c' h) (plug (node l p c' k v r) u)
paint-Is h l p c k v r u c' i d =
    let (o, ul, ur, il, ir) = Is-part h (node l p c k v r) u i in
    let (pl, pr, a, dl, dr) = IsDistinct-part (node l p c k v r) u d in
    let g = paint p c' h in
    let kept : (q : Ptr) → q ≢ p → SameAt h g q = λ q n. painted q n in
    let top : Holds g (root l) p c' k v (root r) = record {
      not_null = o.not_null;
      left = o.left;
      right = o.right;
      red = rw (==_self p) refl;
      key = o.key;
      val = o.val;
    } in
    let below : (t : Tree) → within p t ≡ false → Is h t → IsDistinct t → Is g t =
      λ t z it dt. Is-same h g t it dt (λ q w. kept q (ne_of_within p q t z w)) (λ q w n. refl) in
    Is-plug h g (node l p c k v r) (node l p c' k v r) u i d
      (top, under l ul, under r ur, below l pl il dl, below r pr ir dr) refl o.not_null refl
      (λ q w. (kept q (out l p c k v r q w).0, λ n. refl))
  where
    painted : (q : Ptr) → q ≢ p → SameAt h (paint p c' h) q
    painted q n = ground arith

    under : (t : Tree) → Under h p t → Under (paint p c' h) p t
    under leaf e = tt
    under (node a q d m w b) e = e
