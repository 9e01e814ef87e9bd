-- ===== src/Rbtree/Hang.antt =====
-- The walk of `rbtree_insert` in rbtree.c down to a free place.
use Prim.Native.Nat.{Ordering, compare}
use mathlib.Core.List.{append_assoc}
use t_visor.Prelude.{
  ℕ, zero, suc, ◌+◌, ◌≤◌, ◌<◌, ◌≡◌, ◌≢◌, refl, sym, ap, subst, ◌∙◌, Bool, true, false, Option, some,
  ◌⊎◌, inl, inr, List, [], ◌∷◌, ◌++◌, arith, leb, if◌then◌else◌, ==_of_ne,
}
use t_visor.Rbtree.{Ptr, null, Heap, Comp, set_par, set_left, set_right, hang}
use t_visor.Rbtree.Shape.{Tree, leaf, node, root, entries, Holds, Is}
use t_visor.Rbtree.Search.{
  ComparesBelow, KeysBelow, AtMost, IsOrdered, height, max, Ordering-cases, lt_of_compare,
  eq_of_compare, gt_of_compare,
}
use t_visor.Rbtree.Place.{Place, whole, as_left, as_right, plug, depth}
use t_visor.Rbtree.Standing.{is_whole}

-- The entry stands before the first one whose key is not less.
unfoldable pub put_entry : ℕ → ℕ → List (ℕ × ℕ) → List (ℕ × ℕ)
put_entry key val [] = (key, val) ∷ []
put_entry key val (x ∷ xs) = if leb key x.0 then (key, val) ∷ x ∷ xs else x ∷ put_entry key val xs

put_entry-left :
    (key val k v : ℕ) (xs ys : List (ℕ × ℕ))
    → key ≤ k
    → put_entry key val (xs ++ (k, v) ∷ ys) ≡ put_entry key val xs ++ (k, v) ∷ ys
unfolding put_entry
put_entry-left key val k v [] ys o = ground arith
put_entry-left key val k v (x ∷ xs) ys o = ground (arith, put_entry-left key val k v xs ys o)

-- A tree of smaller keys is passed.
put_entry-right :
    (key val m : ℕ) (t : Tree) (ys : List (ℕ × ℕ))
    → AtMost m t
    → m < key
    → put_entry key val (entries t ++ ys) ≡ entries t ++ put_entry key val ys
unfolding put_entry
put_entry-right key val m leaf ys a o = refl
put_entry-right key val m (node l p c k v r) ys (x, al, ar) o =
    let big : leb key k ≡ false = ground arith in
    ap (put_entry key val) (append_assoc (entries l) ((k, v) ∷ entries r) ys)
    ∙ put_entry-right key val m l ((k, v) ∷ entries r ++ ys) al o
    ∙ ap (λ zs. entries l ++ zs)
        (rw big (ap (λ zs. (k, v) ∷ zs) (put_entry-right key val m r ys ar o)))
    ∙ sym (append_assoc (entries l) ((k, v) ∷ entries r) (put_entry key val ys))

pass :
    (key val : ℕ) (l : Tree) (k v : ℕ) (r : Tree)
    → AtMost k l
    → k < key
    → put_entry key val (entries l ++ (k, v) ∷ entries r)
      ≡ entries l ++ (k, v) ∷ put_entry key val (entries r)
unfolding put_entry
pass key val l k v r a o =
    let big : leb key k ≡ false = ground arith in
    put_entry-right key val k l ((k, v) ∷ entries r) a o ∙ rw big refl

-- The node is the child of the node above the place.
abbrev pub linked : Place → Ptr → Heap → Heap
linked whole tar h = h
linked (as_left u p c k v r) tar h = set_left p tar (set_par tar p h)
linked (as_right u l p c k v) tar h = set_right p tar (set_par tar p h)

-- The walk reaches a free place, and the entry there is in its order.
pub record Hangs (h : Heap) (tar : Ptr) (key val : ℕ) (s : Tree) (w : Place) (n : ℕ)
    (done : Option Heap) : Type 0 where
  pub place : Place
  pub result : Tree
  pub free : plug leaf place ≡ plug s w
  pub taken : plug (node leaf tar true key val leaf) place ≡ plug result w
  pub order : entries result ≡ put_entry key val (entries s)
  pub below : is_whole place ≡ false
  pub shallow : depth place ≤ height s + depth w
  pub ends : done ≡ some (linked place tar h)

-- The comparison sends the walk to the left.
abbrev GoesLeft : Ordering → Type 0
GoesLeft o = (o ≡ Ordering.lt) ⊎ (o ≡ Ordering.eq)

not_above : (key k : ℕ) → GoesLeft (compare key k) → key ≤ k
not_above key k (inl e) = ground (arith, lt_of_compare key k e)
not_above key k (inr e) = ground (arith, eq_of_compare key k e)

left_fits : (a b n : ℕ) → max a b + 1 ≤ suc n → a ≤ n
left_fits a b n h = ground arith

right_fits : (a b n : ℕ) → max a b + 1 ≤ suc n → b ≤ n
right_fits a b n h = ground arith

shallow_left : (a b d n : ℕ) → d ≤ a + suc n → d ≤ (max a b + 1) + n
shallow_left a b d n h = ground arith

shallow_right : (a b d n : ℕ) → d ≤ b + suc n → d ≤ (max a b + 1) + n
shallow_right a b d n h = ground arith

module _ (comp : Comp) (h : Heap) (tar p n : Ptr) where
  -- The step to the right, and the one to the left.
  right_free :
      comp (h.key p) (h.key tar) ≡ Ordering.gt
      → h.right p ≡ null
      → hang (suc n) comp p tar h ≡ some (set_right p tar (set_par tar p h))
  unfolding hang
  right_free e f = rw (e, hang) (rw f refl)

  right_on :
      comp (h.key p) (h.key tar) ≡ Ordering.gt
      → h.right p ≢ null
      → hang (suc n) comp p tar h ≡ hang n comp (h.right p) tar h
  unfolding hang
  right_on e f = rw (e, hang) (rw (==_of_ne (h.right p) null f) refl)

  left_free :
      GoesLeft (comp (h.key p) (h.key tar))
      → h.left p ≡ null
      → hang (suc n) comp p tar h ≡ some (set_left p tar (set_par tar p h))
  unfolding hang
  left_free (inl e) f = rw (e, hang) (rw f refl)
  left_free (inr e) f = rw (e, hang) (rw f refl)

  left_on :
      GoesLeft (comp (h.key p) (h.key tar))
      → h.left p ≢ null
      → hang (suc n) comp p tar h ≡ hang n comp (h.left p) tar h
  unfolding hang
  left_on (inl e) f = rw (e, hang) (rw (==_of_ne (h.left p) null f) refl)
  left_on (inr e) f = rw (e, hang) (rw (==_of_ne (h.left p) null f) refl)

module _ (bound : ℕ) (comp : Comp) (laws : ComparesBelow bound comp) (key val : ℕ)
    (small : key < bound) (h : Heap) (tar : Ptr) (has : h.key tar ≡ key) where
  -- What the walk from the top of a tree gives.
  abbrev Walks : ℕ → Tree → Place → Type 0
  Walks n s w = Hangs h tar key val s w n (hang n comp (root s) tar h)

  module _ (w : Place) (n : ℕ) (l : Tree) (p : Ptr) (c : Bool) (k v : ℕ) (r : Tree)
      (o : Holds h (root l) p c k v (root r)) (kb : k < bound) where
    sign : comp (h.key p) (h.key tar) ≡ compare key k
    sign = rw (o.key, has) (laws k key kb small)

    right_walk :
        compare key k ≡ Ordering.gt
        → AtMost k l
        → h.right p ≢ null
        → Walks n r (as_right w l p c k v)
        → Walks (suc n) (node l p c k v r) w
    right_walk e a f x = record {
      place = x.place;
      result = node l p c k v x.result;
      free = x.free;
      taken = x.taken;
      order =
          ap (λ zs. entries l ++ (k, v) ∷ zs) x.order
          ∙ sym (pass key val l k v r a (gt_of_compare key k e));
      below = x.below;
      shallow = shallow_right (height l) (height r) (depth x.place) (depth w) x.shallow;
      ends = right_on comp h tar p n (sign ∙ e) f ∙ ap (λ q. hang n comp q tar h) o.right ∙ x.ends;
    }

    left_walk :
        GoesLeft (compare key k)
        → h.left p ≢ null
        → Walks n l (as_left w p c k v r)
        → Walks (suc n) (node l p c k v r) w
    left_walk e f x = record {
      place = x.place;
      result = node x.result p c k v r;
      free = x.free;
      taken = x.taken;
      order =
          ap (λ zs. zs ++ (k, v) ∷ entries r) x.order
          ∙ sym (put_entry-left key val k v (entries l) (entries r) (not_above key k e));
      below = x.below;
      shallow = shallow_left (height l) (height r) (depth x.place) (depth w) x.shallow;
      ends =
          left_on comp h tar p n (subst GoesLeft (sym sign) e) f
          ∙ ap (λ q. hang n comp q tar h) o.left
          ∙ x.ends;
    }

  right_end :
      (w : Place) (n : ℕ) (l : Tree) (p : Ptr) (c : Bool) (k v : ℕ)
      → Holds h (root l) p c k v null
      → k < bound
      → compare key k ≡ Ordering.gt
      → AtMost k l
      → Walks (suc n) (node l p c k v leaf) w
  unfolding put_entry
  right_end w n l p c k v o kb e a = record {
    place = as_right w l p c k v;
    result = node l p c k v (node leaf tar true key val leaf);
    free = refl;
    taken = refl;
    order = sym (pass key val l k v leaf a (gt_of_compare key k e));
    below = refl;
    shallow = omega arith;
    ends = right_free comp h tar p n (sign w n l p c k v leaf o kb ∙ e) o.right;
  }

  left_end :
      (w : Place) (n : ℕ) (p : Ptr) (c : Bool) (k v : ℕ) (r : Tree)
      → Holds h null p c k v (root r)
      → k < bound
      → GoesLeft (compare key k)
      → Walks (suc n) (node leaf p c k v r) w
  unfolding put_entry
  left_end w n p c k v r o kb e = record {
    place = as_left w p c k v r;
    result = node (node leaf tar true key val leaf) p c k v r;
    free = refl;
    taken = refl;
    order = sym (put_entry-left key val k v [] (entries r) (not_above key k e));
    below = refl;
    shallow = omega arith;
    ends = left_free comp h tar p n (subst GoesLeft (sym (sign w n leaf p c k v r o kb)) e) o.left;
  }

  -- The walk down the right, and down the left.
  module _ (n : ℕ)
      (rest : (s : Tree) (w : Place)
        → Is h s
        → IsOrdered s
        → KeysBelow bound s
        → root s ≢ null
        → height s ≤ n
        → Walks n s w) where
    go_right :
        (w : Place) (l : Tree) (p : Ptr) (c : Bool) (k v : ℕ) (r : Tree)
        → Is h (node l p c k v r)
        → IsOrdered (node l p c k v r)
        → KeysBelow bound (node l p c k v r)
        → height r ≤ n
        → compare key k ≡ Ordering.gt
        → Walks (suc n) (node l p c k v r) w
    go_right w l p c k v leaf i o b f e = right_end w n l p c k v i.0 b.0 e o.0
    go_right w l p c k v (node rl q d m y rr) i o b f e =
        let s = node rl q d m y rr in
        right_walk w n l p c k v s i.0 b.0 e o.0 (λ z. i.4.0.not_null (sym i.0.right ∙ z))
          (rest s (as_right w l p c k v) i.4 o.3 b.2 i.4.0.not_null f)

    go_left :
        (w : Place) (l : Tree) (p : Ptr) (c : Bool) (k v : ℕ) (r : Tree)
        → Is h (node l p c k v r)
        → IsOrdered (node l p c k v r)
        → KeysBelow bound (node l p c k v r)
        → height l ≤ n
        → GoesLeft (compare key k)
        → Walks (suc n) (node l p c k v r) w
    go_left w leaf p c k v r i o b f e = left_end w n p c k v r i.0 b.0 e
    go_left w (node ll q d m y lr) p c k v r i o b f e =
        let s = node ll q d m y lr in
        left_walk w n s p c k v r i.0 b.0 e (λ z. i.3.0.not_null (sym i.0.left ∙ z))
          (rest s (as_left w p c k v r) i.3 o.2 b.1 i.3.0.not_null f)

  pub hang-Hangs :
      (n : ℕ) (s : Tree) (w : Place)
      → Is h s
      → IsOrdered s
      → KeysBelow bound s
      → root s ≢ null
      → height s ≤ n
      → Walks n s w
  hang-Hangs n leaf w i o b m f = absurd (m refl)
  hang-Hangs zero (node l p c k v r) w i o b m f = absurd (omega arith)
  hang-Hangs (suc n) (node l p c k v r) w i o b m f = elim (Ordering-cases (compare key k)) [
    | inl lt ↦
        go_left n (hang-Hangs n) w l p c k v r i o b (left_fits (height l) (height r) n f) (inl lt)
    | inr (inl eq) ↦
        go_left n (hang-Hangs n) w l p c k v r i o b (left_fits (height l) (height r) n f) (inr eq)
    | inr (inr gt) ↦
        go_right n (hang-Hangs n) w l p c k v r i o b (right_fits (height l) (height r) n f) gt
  ]
