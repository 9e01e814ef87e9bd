-- ===== src/Rbtree/Predecessor.antt =====
-- What `rbtree_delete` of rbtree.c puts in the place of an entry that has a left child.
use t_visor.Prelude.{
  ◌⊎◌, inl, inr, ℕ, zero, suc, ◌<◌, ◌≡◌, ◌≢◌, refl, sym, ◌∙◌, Bool, true, subst, ap, some, arith,
  ==_of_ne,
}
use t_visor.Rbtree.{Ptr, null, Heap, Comp, rbtree_search, rbtree_node_free}
use t_visor.Rbtree.Delete.{
  rightmost, take_max, choose_node, rbtree_delete, rbtree_delete_red, entries-rbtree_node_free,
}
use t_visor.Rbtree.Shape.{
  Tree, leaf, node, within, IsDistinct, Is, ne_of_within, in_top, in_left, in_right,
}
use t_visor.Rbtree.Search.{height, lower_right}

-- The greatest key of the tree with the top `k`, and the right part `r`.
abbrev pub last_key : ℕ → Tree → ℕ
last_key k leaf = k
last_key k (node l p c k' v r) = last_key k' r

-- The value that stands with it.
abbrev pub last_val : ℕ → Tree → ℕ
last_val v leaf = v
last_val v (node l p c k v' r) = last_val v' r

-- The left child of a node is null, or another node of the tree.
abbrev LeftIn : Heap → Ptr → Tree → Type 0
LeftIn h m t = (h.left m ≡ null) ⊎ ((within (h.left m) t ≡ true) × (h.left m ≢ m))

other_left :
    (h : Heap) (m q : Ptr) (t : Tree) → h.left m ≡ q → within q t ≡ true → q ≢ m → LeftIn h m t
other_left h m q t e w n = inr (subst (λ z. within z t ≡ true) (sym e) w, λ x. n (sym e ∙ x))

left_of_top :
    (h : Heap) (l : Tree) (p : Ptr) (c : Bool) (k v : ℕ) (r : Tree)
    → Is h (node l p c k v r)
    → IsDistinct (node l p c k v r)
    → LeftIn h p (node l p c k v r)
left_of_top h leaf p c k v r i d = inl (i.0.left)
left_of_top h (node a q e k' v' b) p c k v r i d =
    let l = node a q e k' v' b in
    let there = in_top a q e k' v' b in
    other_left h p q (node l p c k v r) i.0.left (in_left l p c k v r q there)
      (ne_of_within p q l d.0 there)

left_left :
    (h : Heap) (m : Ptr) (l : Tree) (p : Ptr) (c : Bool) (k v : ℕ) (r : Tree)
    → LeftIn h m l
    → LeftIn h m (node l p c k v r)
left_left h m l p c k v r (inl n) = inl n
left_left h m l p c k v r (inr (w, o)) = inr (in_left l p c k v r (h.left m) w, o)

left_right :
    (h : Heap) (m : Ptr) (l : Tree) (p : Ptr) (c : Bool) (k v : ℕ) (r : Tree)
    → LeftIn h m r
    → LeftIn h m (node l p c k v r)
left_right h m l p c k v r (inl n) = inl n
left_right h m l p c k v r (inr (w, o)) = inr (in_right l p c k v r (h.left m) w, o)

rightmost_lem :
    (h : Heap) (fuel : ℕ) (l : Tree) (p : Ptr) (c : Bool) (k v : ℕ) (r : Tree)
    → Is h (node l p c k v r)
    → IsDistinct (node l p c k v r)
    → height (node l p c k v r) < fuel
    → (m : Ptr) × (rightmost fuel p h ≡ some m)
      × (within m (node l p c k v r) ≡ true)
      × (h.key m ≡ last_key k r)
      × (h.val m ≡ last_val v r)
      × LeftIn h m (node l p c k v r)
unfolding rightmost
rightmost_lem h zero l p c k v r i d f = absurd (omega arith)
rightmost_lem h (suc n) l p c k v leaf i d f = (
  p,
  rw i.0.right refl,
  in_top l p c k v leaf,
  i.0.key,
  i.0.val,
  left_of_top h l p c k v leaf i d,
)
rightmost_lem h (suc n) l p c k v (node a q e k' v' b) (o, ul, ur, il, ir) d f =
    let r = node a q e k' v' b in
    let (m, ran, w, key, val, left) =
      rightmost_lem h n a q e k' v' b ir d.4 (lower_right (height l) (height r) n f) in
    (
      m,
      rw (o.right, ==_of_ne q null ir.0.not_null) ran,
      in_right l p c k v r m w,
      key,
      val,
      left_right h m l p c k v r left,
    )

-- One node of the tree, and no other, has the value `x`.
abbrev pub Once : Heap → Tree → ℕ → Type 0
Once h t x = (y z : Ptr) → within y t ≡ true → within z t ≡ true → h.val y ≡ x → h.val z ≡ x → y ≡ z

-- No node of the tree but `del` has the value `x`.
abbrev pub Gone : Heap → Ptr → Tree → ℕ → Type 0
Gone h del t x = (y : Ptr) → within y t ≡ true → y ≢ del → h.val y ≢ x

take_max_lem :
    (h : Heap) (p m : Ptr)
    → p ≢ m
    → ((take_max p m h).1.key p ≡ h.key m) × ((take_max p m h).1.val p ≡ h.val p)
unfolding take_max
take_max_lem h p m n = ground arith

-- The value of the node `m` is in no node but the one that will be freed.
take_max-Gone :
    (h : Heap) (p m : Ptr) (t : Tree)
    → within m t ≡ true
    → LeftIn h m t
    → Once h t (h.val m)
    → Gone (take_max p m h).1 (take_max p m h).0 t (h.val m)
unfolding take_max
take_max-Gone h p m t w (inl n) once y i o e = absurd (ground (arith, once y m i w))
take_max-Gone h p m t w (inr (l, n)) once y i o e =
    absurd (ground (arith, once y m i w, once (h.left m) m l w))

choose_node-take_max :
    (h : Heap) (tree fuel : ℕ) (p m : Ptr)
    → p ≢ null
    → h.left p ≢ null
    → rightmost fuel (h.left p) h ≡ some m
    → choose_node fuel tree p h ≡ some (take_max p m h)
unfolding choose_node
choose_node-take_max h tree fuel p m a b e =
    rw (==_of_ne p null a, ==_of_ne (h.left p) null b, e) refl

-- Where `rbtree_delete` finds a node with a left child, at the top of the tree that is given, and the
-- node that it will free is red, so that nothing is balanced, it ends without a fault. The node that
-- was found takes the greatest key of its left part but keeps its own value, the deleted one; the value
-- that stood with that key, if one node of the tree held it, is then in no node of the tree but the
-- freed one. The search and the walk to the greatest key are given enough fuel.
pub rbtree_delete_loses :
    (h g : Heap) (comp : Comp) (tree fuel key : ℕ) (p del : Ptr) (c : Bool) (k v : ℕ) (r : Tree)
    (a : Tree) (q : Ptr) (d : Bool) (k' v' : ℕ) (b : Tree)
    → Is h (node (node a q d k' v' b) p c k v r)
    → IsDistinct (node (node a q d k' v' b) p c k v r)
    → height (node a q d k' v' b) < suc fuel
    → Once h (node (node a q d k' v' b) p c k v r) (last_val v' b)
    → rbtree_search (suc fuel) comp tree key h ≡ some p
    → choose_node (suc fuel) tree p h ≡ some (del, g)
    → g.red del ≡ true
    → (t : Heap) × (rbtree_delete (suc fuel) comp tree key h ≡ some t)
      × (t.key p ≡ last_key k' b)
      × (t.val p ≡ v)
      × Gone t del (node (node a q d k' v' b) p c k v r) (last_val v' b)
rbtree_delete_loses h g comp tree fuel key p del c k v r a q d k' v' b i w f once found chosen red =
    let l = node a q d k' v' b in
    let (o, ul, ur, il, ir) = i in
    let (m, ran, there, last, val, left) = rightmost_lem h (suc fuel) a q d k' v' b il w.3 f in
    let (new_key, old_val) = take_max_lem h p m (λ x. ne_of_within p m l w.0 there (sym x)) in
    let took : choose_node (suc fuel) tree p h ≡ some (take_max p m h) =
      choose_node-take_max h tree (suc fuel) p m o.not_null (λ x. il.0.not_null (sym o.left ∙ x))
        (rw o.left ran) in
    let same : take_max p m h ≡ (del, g) = cc in
    let (keys, vals) = entries-rbtree_node_free del g in
    let gone =
      take_max-Gone h p m (node l p c k v r) (in_left l p c k v r m there)
        (left_left h m l p c k v r left) (rw val once) in
    let key_p : g.key p ≡ h.key m = subst (λ (z : Ptr × Heap). z.1.key p ≡ h.key m) same new_key in
    let val_p : g.val p ≡ h.val p = subst (λ (z : Ptr × Heap). z.1.val p ≡ h.val p) same old_val in
    let gone' : Gone g del (node l p c k v r) (h.val m) =
      subst (λ (z : Ptr × Heap). Gone z.1 z.0 (node l p c k v r) (h.val m)) same gone in
    (
      rbtree_node_free del g,
      rbtree_delete_red h g comp tree fuel key p del found chosen red,
      ap (λ (f : Ptr → ℕ). f p) keys ∙ key_p ∙ last,
      ap (λ (f : Ptr → ℕ). f p) vals ∙ val_p ∙ o.val,
      λ y s n e. gone' y s n (sym (ap (λ (f : Ptr → ℕ). f y) vals) ∙ e ∙ sym val),
    )
