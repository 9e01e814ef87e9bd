-- ===== src/Rbtree/Search.antt =====
-- `rbtree_search` of rbtree.c on an ordered tree.
use Prim.Native.Nat.{Ordering, compare}
use t_visor.Prelude.{
  ℕ, zero, suc, ◌+◌, ◌≤◌, ◌<◌, ◌≡◌, refl, ◌∙◌, Bool, true, false, ◌&&◌, ◌||◌, some, ◌⊎◌, inl, inr,
  arith, leb, ◌==◌, if◌then◌else◌, ==_of_ne,
}
use t_visor.Rbtree.{Ptr, null, Heap, Comp, search_from, rbtree_search}
use t_visor.Rbtree.Shape.{Tree, leaf, node, root, within, Holds, Is}

-- The comparison is that of the numbers below `bound`, with the sides exchanged.
abbrev pub ComparesBelow : ℕ → Comp → Type 0
ComparesBelow bound comp = (a b : ℕ) → a < bound → b < bound → comp a b ≡ compare b a

-- Every key is below `bound`.
abbrev pub KeysBelow : ℕ → Tree → Type 0
KeysBelow bound leaf = Unit {0}
KeysBelow bound (node l p c k v r) = (k < bound) × KeysBelow bound l × KeysBelow bound r

abbrev pub AtMost : ℕ → Tree → Type 0
AtMost m leaf = Unit {0}
AtMost m (node l p c k v r) = (k ≤ m) × AtMost m l × AtMost m r

abbrev pub Above : ℕ → Tree → Type 0
Above m leaf = Unit {0}
Above m (node l p c k v r) = (m < k) × Above m l × Above m r

-- On the left of a node the keys are at most its own, on the right they are greater.
abbrev pub IsOrdered : Tree → Type 0
IsOrdered leaf = Unit {0}
IsOrdered (node l p c k v r) = AtMost k l × Above k r × IsOrdered l × IsOrdered r

abbrev pub max : ℕ → ℕ → ℕ
max a b = if leb a b then b else a

abbrev pub height : Tree → ℕ
height leaf = 0
height (node l p c k v r) = max (height l) (height r) + 1

-- Is the key there, and is it there with the value?
abbrev pub has_key : ℕ → Tree → Bool
has_key key leaf = false
has_key key (node l p c k v r) = (key == k) || (has_key key l || has_key key r)

abbrev pub has_entry : ℕ → ℕ → Tree → Bool
has_entry key val leaf = false
has_entry key val (node l p c k v r) =
    (key == k && val == v) || (has_entry key val l || has_entry key val r)

AtMost-has_key : (m key : ℕ) (t : Tree) → m < key → AtMost m t → has_key key t ≡ false
AtMost-has_key m key leaf o a = refl
AtMost-has_key m key (node l p c k v r) o (x, a, b) =
    ground (arith, AtMost-has_key m key l o a, AtMost-has_key m key r o b)

Above-has_key : (m key : ℕ) (t : Tree) → key ≤ m → Above m t → has_key key t ≡ false
Above-has_key m key leaf o a = refl
Above-has_key m key (node l p c k v r) o (x, a, b) =
    ground (arith, Above-has_key m key l o a, Above-has_key m key r o b)

-- The result of a search: NULL, or a node with the key.
abbrev pub Finds : Heap → ℕ → Tree → Ptr → Type 0
Finds h key t p =
    ((p ≡ null) × (has_key key t ≡ false))
    ⊎ ((within p t ≡ true) × (h.key p ≡ key) × (has_entry key (h.val p) t ≡ true))

module _ (h : Heap) (key : ℕ) (l : Tree) (q : Ptr) (c : Bool) (k v : ℕ) (r : Tree) where
  go_right : k < key → AtMost k l → (p : Ptr) → Finds h key r p → Finds h key (node l q c k v r) p
  go_right o a p (inl (e, n)) = inl (e, ground (arith, AtMost-has_key k key l o a))
  go_right o a p (inr (w, e, x)) = inr (rw w (ground arith), e, rw x (ground arith))

  go_left : key < k → Above k r → (p : Ptr) → Finds h key l p → Finds h key (node l q c k v r) p
  go_left o a p (inl (e, n)) = inl (e, ground (arith, Above-has_key k key r (omega arith) a))
  go_left o a p (inr (w, e, x)) = inr (rw w (ground arith), e, rw x (ground arith))

  stop : k ≡ key → Holds h (root l) q c k v (root r) → Finds h key (node l q c k v r) q
  stop e o = inr (ground arith, o.key ∙ e, ground (arith, o.val))

lower_left : (a b n : ℕ) → max a b + 1 < suc n → a < n
lower_left a b n h = ground arith

pub lower_right : (a b n : ℕ) → max a b + 1 < suc n → b < n
lower_right a b n h = ground arith

pub lt_of_compare : (a b : ℕ) → compare a b ≡ Ordering.lt → a < b
lt_of_compare a b h = ground arith

pub eq_of_compare : (a b : ℕ) → compare a b ≡ Ordering.eq → b ≡ a
eq_of_compare a b h = ground arith

pub gt_of_compare : (a b : ℕ) → compare a b ≡ Ordering.gt → b < a
gt_of_compare a b h = ground arith

pub Ordering-cases : (o : Ordering) → (o ≡ Ordering.lt) ⊎ ((o ≡ Ordering.eq) ⊎ (o ≡ Ordering.gt))
Ordering-cases Ordering.lt = inl refl
Ordering-cases Ordering.eq = inr (inl refl)
Ordering-cases Ordering.gt = inr (inr refl)

module _ (bound : ℕ) (comp : Comp) (laws : ComparesBelow bound comp) (key : ℕ) (small : key < bound)
    (h : Heap) where
  search_from-Finds :
      (t : Tree) (fuel : ℕ)
      → Is h t
      → IsOrdered t
      → KeysBelow bound t
      → height t < fuel
      → (p : Ptr) × (search_from fuel comp key (root t) h ≡ some p) × Finds h key t p
  unfolding search_from
  search_from-Finds leaf (suc fuel) i o b f = (null, refl, inl (refl, refl))
  search_from-Finds leaf zero i o b f = absurd (omega arith)
  search_from-Finds (node l q c k v r) zero i o b f = absurd (omega arith)
  search_from-Finds (node l q c k v r) (suc fuel) (x, ul, ur, il, ir) (am, ab, ol, or) (kb, bl, br)
        f =
      let side : comp (h.key q) key ≡ compare key k = rw x.key (laws k key kb small) in
      let real = ==_of_ne q null x.not_null in
      elim (Ordering-cases (compare key k)) [
        | inl lt ↦
            let (p, e, d) =
              search_from-Finds l fuel il ol bl (lower_left (height l) (height r) fuel f) in
            (
              p,
              rw (real, side, lt) (rw x.left e),
              go_left h key l q c k v r (lt_of_compare key k lt) ab p d,
            )
        | inr (inl eq) ↦
            (q, rw (real, side, eq) refl, stop h key l q c k v r (eq_of_compare key k eq) x)
        | inr (inr gt) ↦
            let (p, e, d) =
              search_from-Finds r fuel ir or br (lower_right (height l) (height r) fuel f) in
            (
              p,
              rw (real, side, gt) (rw x.right e),
              go_right h key l q c k v r (gt_of_compare key k gt) am p d,
            )
      ]

  -- On an ordered tree that is not higher than the fuel, rbtree_search gives a node of the tree with
  -- the key, and with a value that the tree holds for it, and NULL exactly when the key is not there.
  pub rbtree_search-Finds :
      (t : Tree) (tree fuel : ℕ)
      → h.head tree ≡ root t
      → Is h t
      → IsOrdered t
      → KeysBelow bound t
      → height t < fuel
      → (p : Ptr) × (rbtree_search fuel comp tree key h ≡ some p) × Finds h key t p
  unfolding rbtree_search
  rbtree_search-Finds t tree fuel e i o b f = rw e (search_from-Finds t fuel i o b f)
