-- ===== src/Rbtree/Insert.antt =====
-- `rbtree_insert` of rbtree.c.
use t_visor.Prelude.{
  ℕ, ◌+◌, ◌≤◌, ◌<◌, ◌≡◌, ◌≢◌, refl, sym, ap, ◌∙◌, true, false, Option, some, arith, ==_self,
  ==_of_ne,
}
use t_visor.TimerEvent.{put}
use t_visor.Rbtree.{
  Ptr, null, Heap, Comp, paint, set_par, rbtree_node_alloc, hang, repair, rbtree_insert,
}
use t_visor.Rbtree.Shape.{Tree, leaf, node, root, entries, within, Holds}
use t_visor.Rbtree.Search.{ComparesBelow, KeysBelow, IsOrdered, height}
use t_visor.Rbtree.Place.{whole, depth}
use t_visor.Rbtree.Standing.{Standing}
use t_visor.Rbtree.Repair.{repair-Rest}
use t_visor.Rbtree.Hang.{put_entry, linked, hang-Hangs}
use t_visor.Rbtree.Linked.{fresh, fresh-Holds, linked-Standing, fresh-Standing, alloc-Standing}

module _ (fuel : ℕ) (comp : Comp) (tree key val : ℕ) (h : Heap)
    (n : (rbtree_node_alloc h).0 ≢ null) where
  abbrev got : Ptr
  got = (rbtree_node_alloc h).0

  abbrev prepared : Heap
  prepared = fresh got key val (rbtree_node_alloc h).1

  insert_first :
      prepared.head tree ≡ null
      → rbtree_insert fuel comp tree key val h
        ≡ some (record (paint got false (set_par got null prepared)) {
          head = put prepared.head tree got;
        })
  unfolding rbtree_insert
  insert_first e = rw (==_of_ne got null n, e) refl

  insert_more :
      (g : Heap)
      → prepared.head tree ≢ null
      → hang fuel comp (prepared.head tree) got prepared ≡ some g
      → rbtree_insert fuel comp tree key val h ≡ repair fuel tree got g
  unfolding rbtree_insert
  insert_more g m e = rw (==_of_ne got null n, ==_of_ne (prepared.head tree) null m, e) refl

-- What an insertion gives.
abbrev pub Inserts : Heap → ℕ → Tree → ℕ → ℕ → Option Heap → Type 0
Inserts h tree t key val done =
    (g : Heap) × (t' : Tree) × (done ≡ some g)
    × Standing g tree t'
    × (entries t' ≡ put_entry key val (entries t))

fits : (a b n : ℕ) → a ≤ b + 0 → b < n → a < n
fits a b n x y = omega arith

module _ (bound : ℕ) (comp : Comp) (laws : ComparesBelow bound comp) (key val : ℕ)
    (small : key < bound) where
  insert_below :
      (h : Heap) (tree fuel tar : ℕ) (s : Tree)
      → Holds h null tar true key val null
      → Standing h tree s
      → IsOrdered s
      → KeysBelow bound s
      → root s ≢ null
      → within tar s ≡ false
      → height s < fuel
      → (u : Heap) × (hang fuel comp (root s) tar h ≡ some u)
        × Inserts h tree s key val (repair fuel tree tar u)
  insert_below h tree fuel tar s o a r b m w f =
      let x =
        hang-Hangs bound comp laws key val small h tar o.key fuel s whole a.holds r b m
          (omega arith) in
      let new = node leaf tar true key val leaf in
      let y = linked-Standing h tree tar key val s x.place o a w m x.free x.below in
      let (g, t', e, stands, same) =
        repair-Rest fuel tree (linked x.place tar h) new x.place y o.not_null
          (fits (depth x.place) (height s) fuel x.shallow f) in
      (linked x.place tar h, x.ends, (g, t', e, stands, same ∙ ap entries x.taken ∙ x.order))

  -- `rbtree_insert` on an ordered tree with a black top, which is not higher than the fuel: if a
  -- node that is not in the tree can be allocated, the insertion follows no null pointer, both loops
  -- end, and the heap then holds a tree of distinct nodes with a black top, at the tree's `head`,
  -- whose entries in order are the old ones with the new entry before the first key that is not
  -- less. The tree may be empty. The comparison is that of the keys below a bound.
  pub rbtree_insert-entries :
      (h : Heap) (tree fuel : ℕ) (s : Tree)
      → Standing h tree s
      → IsOrdered s
      → KeysBelow bound s
      → height s < fuel
      → (rbtree_node_alloc h).0 ≢ null
      → within (rbtree_node_alloc h).0 s ≡ false
      → Inserts h tree s key val (rbtree_insert fuel comp tree key val h)
  unfolding put_entry
  rbtree_insert-entries h tree fuel leaf a r b f n w =
      let (tar, g) = rbtree_node_alloc h in
      let o = fresh-Holds g tar key val n in
      let e = ==_self tar in
      (
        record (paint tar false (set_par tar null (fresh tar key val g))) {
          head = put g.head tree tar;
        },
        node leaf tar false key val leaf,
        insert_first fuel comp tree key val h n (alloc-Standing h tree leaf a).head,
        record {
          holds = (
            record {
              not_null = n;
              left = o.left;
              right = o.right;
              red = rw e refl;
              key = o.key;
              val = o.val;
            },
            tt,
            tt,
            tt,
            tt,
          );
          distinct = (refl, refl, λ q z. cc, tt, tt);
          parent = λ z. rw e refl;
          head = rw (==_self tree) refl;
          black = refl;
        },
        refl,
      )
  rbtree_insert-entries h tree fuel (node l p c k v q) a r b f n w =
      let s = node l p c k v q in
      let (tar, g) = rbtree_node_alloc h in
      let t = fresh tar key val g in
      let y = fresh-Standing g tree tar key val s (alloc-Standing h tree s a) w in
      let m : p ≢ null = a.holds.0.not_null in
      let (u, e, (g', t', done, stands, same)) =
        insert_below t tree fuel tar s (fresh-Holds g tar key val n) y r b m w f in
      (
        g',
        t',
        insert_more fuel comp tree key val h n u (λ z. m (sym y.head ∙ z))
              (ap (λ x. hang fuel comp x tar t) y.head ∙ e)
            ∙ done,
        stands,
        same,
      )
