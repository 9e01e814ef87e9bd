-- ===== src/Rbtree/Plug.antt =====
-- A part of a tree of rbtree.c is replaced, and the tree around it stays.
use t_visor.Prelude.{ℕ, ◌≡◌, ◌≢◌, refl, ap, ◌∙◌, Bool, true, false}
use t_visor.Rbtree.{Ptr, null, Heap}
use t_visor.Rbtree.Shape.{
  Tree, leaf, node, root, within, Apart, IsDistinct, Under, Holds, Is, SameAt, Is-same,
  ne_of_within,
}
use t_visor.Rbtree.Parts.{Apart-sym, out}
use t_visor.Rbtree.Balanced.{within-ne-null}
use t_visor.Rbtree.Rotate.{par_top, within_top}
use t_visor.Rbtree.Place.{
  Place, whole, as_left, as_right, plug, up_of, Is-part, IsDistinct-part, SameBeside, Under-beside,
}

Under-at : (g : Heap) (p : Ptr) (t : Tree) → g.par (root t) ≡ p → Under g p t
Under-at g p leaf e = tt
Under-at g p (node l q c k v r) e = e

Holds-same :
    (h g : Heap) (l p : Ptr) (c : Bool) (k v : ℕ) (r : Ptr)
    → SameAt h g p
    → Holds h l p c k v r
    → Holds g l p c k v r
Holds-same h g l p c k v r s o = record {
  not_null = o.not_null;
  left = s.left ∙ o.left;
  right = s.right ∙ o.right;
  red = s.red ∙ o.red;
  key = s.key ∙ o.key;
  val = s.val ∙ o.val;
}

-- `g` is `h` outside of `s`, up to the node `p`.
abbrev BesideUp : Heap → Heap → Tree → Ptr → Type 0
BesideUp h g s p =
    (q : Ptr) → within q s ≡ false → q ≢ p → SameAt h g q × (q ≢ null → g.par q ≡ h.par q)

top_kept :
    (h g : Heap) (r : Tree)
    → root r ≢ null
    → ((q : Ptr) → within q r ≡ true → SameAt h g q × (q ≢ null → g.par q ≡ h.par q))
    → g.par (root r) ≡ h.par (root r)
top_kept h g r n f = (f (root r) (within_top r n)).1 n

-- A tree beside what was changed.
beside :
    (h g : Heap) (s r : Tree) (p : Ptr)
    → BesideUp h g s p
    → Apart s r
    → within p r ≡ false
    → Under h p r
    → Is h r
    → IsDistinct r
    → Under g p r × Is g r
beside h g s r p b a o u i d =
    let away : (q : Ptr) → within q r ≡ true → SameAt h g q × (q ≢ null → g.par q ≡ h.par q) =
      λ q w. b q (Apart-sym s r a q w) (ne_of_within p q r o w) in
    (
      Under-beside h g p r u i (λ n. top_kept h g r n away),
      Is-same h g r i d (λ q w. (away q w).0) (λ q w n. (away q w).1 (within-ne-null h q r i w)),
    )

-- The node above the part, with its new child.
pub as_left-Is :
    (h g : Heap) (s t : Tree) (p : Ptr) (c : Bool) (k v : ℕ) (r : Tree)
    → Is h (node s p c k v r)
    → IsDistinct (node s p c k v r)
    → Is g t
    → Holds g (root t) p c k v (root r)
    → g.par (root t) ≡ p
    → BesideUp h g s p
    → Is g (node t p c k v r)
as_left-Is h g s t p c k v r (o, us, ur, is, ir) (ps, pr, a, ds, dr) it ho e b =
    let (gu, gi) = beside h g s r p b a pr ur ir dr in (ho, Under-at g p t e, gu, it, gi)

pub as_right-Is :
    (h g : Heap) (s t : Tree) (l : Tree) (p : Ptr) (c : Bool) (k v : ℕ)
    → Is h (node l p c k v s)
    → IsDistinct (node l p c k v s)
    → Is g t
    → Holds g (root l) p c k v (root t)
    → g.par (root t) ≡ p
    → BesideUp h g s p
    → Is g (node l p c k v t)
as_right-Is h g s t l p c k v (o, ul, us, il, is) (pl, ps, a, dl, ds) it ho e b =
    let (gu, gi) = beside h g s l p b (Apart-sym l s a) pl ul il dl in
    (ho, gu, Under-at g p t e, gi, it)

-- The part keeps its top, and the heap is the same outside of it.
pub Is-plug :
    (h g : Heap) (s t : Tree) (u : Place)
    → Is h (plug s u)
    → IsDistinct (plug s u)
    → Is g t
    → root t ≡ root s
    → root s ≢ null
    → g.par (root s) ≡ h.par (root s)
    → SameBeside h g s
    → Is g (plug t u)
Is-plug h g s t whole i d it e n pe b = it
Is-plug h g s t (as_left u p c k v r) i d it e n pe b =
    let ih = Is-part h (node s p c k v r) u i in
    let dh = IsDistinct-part (node s p c k v r) u d in
    let (o, us, ur, is, ir) = ih in
    let at = b p dh.0 in
    let above : Holds g (root t) p c k v (root r) =
      rw e (Holds-same h g (root s) p c k v (root r) at.0 o) in
    let up : g.par (root t) ≡ p = ap g.par e ∙ pe ∙ par_top h p s us n in
    let it' = as_left-Is h g s t p c k v r ih dh it above up (λ q w z. b q w) in
    Is-plug h g (node s p c k v r) (node t p c k v r) u i d it' refl o.not_null (at.1 o.not_null)
      (λ q w. b q (out s p c k v r q w).1)
Is-plug h g s t (as_right u l p c k v) i d it e n pe b =
    let ih = Is-part h (node l p c k v s) u i in
    let dh = IsDistinct-part (node l p c k v s) u d in
    let (o, ul, us, il, is) = ih in
    let at = b p dh.1 in
    let above : Holds g (root l) p c k v (root t) =
      rw e (Holds-same h g (root l) p c k v (root s) at.0 o) in
    let up : g.par (root t) ≡ p = ap g.par e ∙ pe ∙ par_top h p s us n in
    let it' = as_right-Is h g s t l p c k v ih dh it above up (λ q w z. b q w) in
    Is-plug h g (node l p c k v s) (node l p c k v t) u i d it' refl o.not_null (at.1 o.not_null)
      (λ q w. b q (out l p c k v s q w).2)

-- The heap has the part `t` as the child of the node above.
abbrev pub Child : Heap → Tree → Place → Type 0
Child g t whole = Unit {0}
Child g t (as_left u p c k v r) = Holds g (root t) p c k v (root r)
Child g t (as_right u l p c k v) = Holds g (root l) p c k v (root t)

-- The part gets another top, and the node above its new child.
pub Is-relink :
    (h g : Heap) (s t : Tree) (u : Place)
    → Is h (plug s u)
    → IsDistinct (plug s u)
    → Is g t
    → g.par (root t) ≡ up_of u
    → Child g t u
    → BesideUp h g s (up_of u)
    → (up_of u ≢ null → g.par (up_of u) ≡ h.par (up_of u))
    → Is g (plug t u)
Is-relink h g s t whole i d it e c b pu = it
Is-relink h g s t (as_left u p c k v r) i d it e ho b pu =
    let ih = Is-part h (node s p c k v r) u i in
    let dh = IsDistinct-part (node s p c k v r) u d in
    Is-plug h g (node s p c k v r) (node t p c k v r) u i d
      (as_left-Is h g s t p c k v r ih dh it ho e b) refl ih.0.not_null (pu ih.0.not_null)
      (λ q w. let (n, os, or) = out s p c k v r q w in b q os n)
Is-relink h g s t (as_right u l p c k v) i d it e ho b pu =
    let ih = Is-part h (node l p c k v s) u i in
    let dh = IsDistinct-part (node l p c k v s) u d in
    Is-plug h g (node l p c k v s) (node l p c k v t) u i d
      (as_right-Is h g s t l p c k v ih dh it ho e b) refl ih.0.not_null (pu ih.0.not_null)
      (λ q w. let (n, ol, os) = out l p c k v s q w in b q os n)
