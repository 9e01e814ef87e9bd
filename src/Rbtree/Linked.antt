-- ===== src/Rbtree/Linked.antt =====
-- The heap of rbtree.c with the node that `rbtree_insert` has hung in its place, before its second loop.
use t_visor.Prelude.{
  ℕ, ◌≡◌, ◌≢◌, refl, sym, ap, subst, ◌∙◌, true, false, arith, ◌==◌, if◌then◌else◌, ==_self,
  ==_of_ne,
}
use t_visor.TimerEvent.{put}
use t_visor.Rbtree.{Ptr, null, Heap, set_par, set_left, set_right, rbtree_node_alloc}
use t_visor.Rbtree.Shape.{
  Tree, leaf, node, root, within, IsDistinct, Holds, Is, SameAt, Is-same, ne_of_within, within-root,
}
use t_visor.Rbtree.Parts.{out}
use t_visor.Rbtree.Place.{Place, whole, as_left, as_right, plug, Is-part}
use t_visor.Rbtree.Plug.{Is-relink}
use t_visor.Rbtree.Standing.{Standing, is_whole, red_of, same_top}
use t_visor.Rbtree.Hang.{linked}
use t_visor.Rbtree.Added.{part-out, IsDistinct-added}

-- The fields that `rbtree_insert` gives to the new node.
abbrev pub fresh : Ptr → ℕ → ℕ → Heap → Heap
fresh tar key val g = record g {
  key = put g.key tar key;
  val = put g.val tar val;
  left = put g.left tar null;
  right = put g.right tar null;
  red = λ q. if tar == q then true else g.red q;
}

fresh-Is :
    (g : Heap) (tar key val : ℕ) (t : Tree)
    → Is g t
    → IsDistinct t
    → within tar t ≡ false
    → Is (fresh tar key val g) t
fresh-Is g tar key val t i d o =
    Is-same g (fresh tar key val g) t i d
      (λ q w.
        let e = ==_of_ne tar q (λ z. ne_of_within tar q t o w (sym z)) in
        record {
          left = rw e refl;
          right = rw e refl;
          red = rw e refl;
          key = rw e refl;
          val = rw e refl;
        })
      (λ q w n. refl)

pub fresh-Holds :
    (g : Heap) (tar key val : ℕ)
    → tar ≢ null
    → Holds (fresh tar key val g) null tar true key val null
fresh-Holds g tar key val n =
    let e = ==_self tar in
    record {
      not_null = n;
      left = rw e refl;
      right = rw e refl;
      red = rw e refl;
      key = rw e refl;
      val = rw e refl;
    }

alloc_same :
    (h : Heap) (q : Ptr)
    → SameAt h (rbtree_node_alloc h).1 q
      × ((rbtree_node_alloc h).1.par ≡ h.par)
      × ((rbtree_node_alloc h).1.head ≡ h.head)
unfolding rbtree_node_alloc
alloc_same h q = (
  record {
    left = ground arith;
    right = ground arith;
    red = ground arith;
    key = ground arith;
    val = ground arith;
  },
  ground arith,
  ground arith,
)

pub alloc-Standing :
    (h : Heap) (tree : ℕ) (t : Tree) → Standing h tree t → Standing (rbtree_node_alloc h).1 tree t
alloc-Standing h tree t s =
    let g = (rbtree_node_alloc h).1 in
    record {
      holds =
          Is-same h g t s.holds s.distinct (λ q w. (alloc_same h q).0)
            (λ q w n. ap (λ f. f q) (alloc_same h q).1);
      distinct = s.distinct;
      parent = λ n. ap (λ f. f (root t)) (alloc_same h 0).1 ∙ s.parent n;
      head = ap (λ f. f tree) (alloc_same h 0).2 ∙ s.head;
      black = s.black;
    }

module _ (h : Heap) (tar key val : ℕ) (o : Holds h null tar true key val null) where
  abbrev new_tree : Tree
  new_tree = node leaf tar true key val leaf

  moved-Is :
      (p : Ptr) (t : Tree) → Is h t → IsDistinct t → within tar t ≡ false → Is (set_par tar p h) t
  moved-Is p t i d w =
      Is-same h (set_par tar p h) t i d
        (λ q z. record { left = refl; right = refl; red = refl; key = refl; val = refl })
        (λ q z n. rw (==_of_ne tar q (λ e. ne_of_within tar q t w z (sym e))) refl)

  -- The new_tree node hangs in the free place.
  linked-Is :
      (u : Place)
      → is_whole u ≡ false
      → Is h (plug leaf u)
      → IsDistinct (plug leaf u)
      → within tar (plug leaf u) ≡ false
      → Is (linked u tar h) (plug new_tree u)
  linked-Is whole f i d w = absurd cc
  linked-Is (as_left u p c k v r) f i d w =
      let a = set_par tar p h in
      let g = set_left p tar a in
      let i0 : Is a (plug leaf (as_left u p c k v r)) =
        moved-Is p (plug leaf (as_left u p c k v r)) i d w in
      let j = Is-part a (node leaf p c k v r) u i0 in
      let (np, nl, nr) = out leaf p c k v r tar (part-out tar (node leaf p c k v r) u w) in
      let top : Holds g null tar true key val null = record {
        not_null = o.not_null;
        left = rw (==_of_ne p tar (λ z. np (sym z))) o.left;
        right = o.right;
        red = o.red;
        key = o.key;
        val = o.val;
      } in
      let above : Holds g tar p c k v (root r) = record {
        not_null = j.0.not_null;
        left = rw (==_self p) refl;
        right = j.0.right;
        red = j.0.red;
        key = j.0.key;
        val = j.0.val;
      } in
      Is-relink a g leaf new_tree (as_left u p c k v r) i0 d (top, tt, tt, tt, tt)
        (rw (==_self tar) refl) above
        (λ q z n. (
          record {
            left = rw (==_of_ne p q (λ e. n (sym e))) refl;
            right = refl;
            red = refl;
            key = refl;
            val = refl;
          },
          λ x. refl,
        ))
        (λ z. refl)
  linked-Is (as_right u l p c k v) f i d w =
      let a = set_par tar p h in
      let g = set_right p tar a in
      let i0 : Is a (plug leaf (as_right u l p c k v)) =
        moved-Is p (plug leaf (as_right u l p c k v)) i d w in
      let j = Is-part a (node l p c k v leaf) u i0 in
      let (np, nl, nr) = out l p c k v leaf tar (part-out tar (node l p c k v leaf) u w) in
      let top : Holds g null tar true key val null = record {
        not_null = o.not_null;
        left = o.left;
        right = rw (==_of_ne p tar (λ z. np (sym z))) o.right;
        red = o.red;
        key = o.key;
        val = o.val;
      } in
      let above : Holds g (root l) p c k v tar = record {
        not_null = j.0.not_null;
        left = j.0.left;
        right = rw (==_self p) refl;
        red = j.0.red;
        key = j.0.key;
        val = j.0.val;
      } in
      Is-relink a g leaf new_tree (as_right u l p c k v) i0 d (top, tt, tt, tt, tt)
        (rw (==_self tar) refl) above
        (λ q z n. (
          record {
            left = refl;
            right = rw (==_of_ne p q (λ e. n (sym e))) refl;
            red = refl;
            key = refl;
            val = refl;
          },
          λ x. refl,
        ))
        (λ z. refl)

linked-head : (u : Place) (tar : Ptr) (h : Heap) → (linked u tar h).head ≡ h.head
linked-head whole tar h = refl
linked-head (as_left u p c k v r) tar h = refl
linked-head (as_right u l p c k v) tar h = refl

linked-par : (u : Place) (tar q : Ptr) (h : Heap) → q ≢ tar → (linked u tar h).par q ≡ h.par q
linked-par whole tar q h n = refl
linked-par (as_left u p c k v r) tar q h n = rw (==_of_ne tar q (λ e. n (sym e))) refl
linked-par (as_right u l p c k v) tar q h n = rw (==_of_ne tar q (λ e. n (sym e))) refl

-- The tree with the new node, before the second loop.
pub linked-Standing :
    (h : Heap) (tree tar key val : ℕ) (s : Tree) (u : Place)
    → Holds h null tar true key val null
    → Standing h tree s
    → within tar s ≡ false
    → root s ≢ null
    → plug leaf u ≡ s
    → is_whole u ≡ false
    → Standing (linked u tar h) tree (plug (node leaf tar true key val leaf) u)
linked-Standing h tree tar key val s u o a w m e f =
    let new = node leaf tar true key val leaf in
    let back = sym e in
    let i = subst (Is h) back a.holds in
    let d = subst IsDistinct back a.distinct in
    let w' = subst (λ x. within tar x ≡ false) back w in
    let (same, red) = same_top leaf new u f in
    let top : root (plug new u) ≡ root s = sym same ∙ ap root e in
    let old : root s ≢ tar = λ z. ne_of_within tar (root s) s w (within-root s m) z in
    record {
      holds = linked-Is h tar key val o u f i d w';
      distinct =
          IsDistinct-added tar leaf new u d w' (refl, refl, λ q x. cc, tt, tt)
            (λ q n x. rw (==_of_ne q tar n) refl);
      parent = λ z. ap (linked u tar h).par top ∙ linked-par u tar (root s) h old ∙ a.parent m;
      head = ap (λ k. k tree) (linked-head u tar h) ∙ a.head ∙ sym top;
      black = sym red ∙ ap red_of e ∙ a.black;
    }

pub fresh-Standing :
    (g : Heap) (tree tar key val : ℕ) (s : Tree)
    → Standing g tree s
    → within tar s ≡ false
    → Standing (fresh tar key val g) tree s
fresh-Standing g tree tar key val s a w = record {
  holds = fresh-Is g tar key val s a.holds a.distinct w;
  distinct = a.distinct;
  parent = a.parent;
  head = a.head;
  black = a.black;
}
