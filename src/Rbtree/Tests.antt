-- ===== src/Rbtree/Tests.antt =====
-- Small trees of rbtree.c.
use Prim.Native.Nat.{compare}
use t_visor.Prelude.{ℕ, ◌≡◌, refl, true, false, Option, none, some, [], arith, ◌==◌, if◌then◌else◌}
use t_visor.Rbtree.{
  Ptr, Heap, Comp, rbtree_search, search_from, rotate, rotate_right_right, rbtree_insert,
  rbtree_node_alloc, hang, repair, lift,
}
use t_visor.Rbtree.Shape.{Tree, leaf, node, IsDistinct, Is}
use t_visor.Rbtree.Search.{Finds, rbtree_search-Finds}
use t_visor.Rbtree.Turned.{Turned, far_right}
use t_visor.Rbtree.Turn.{rotate-Turned}
use t_visor.Rbtree.Insert.{Inserts, rbtree_insert-entries}
use t_visor.Rbtree.Delete.{choose_node, rightmost, take_max, rbtree_delete}
use t_visor.Rbtree.Predecessor.{Once, Gone, rbtree_delete_loses}

abbrev comp : Comp
comp a b = compare b a

abbrev empty : Heap
empty = record {
  key = λ p. 0;
  val = λ p. 0;
  par = λ p. 0;
  left = λ p. 0;
  right = λ p. 0;
  red = λ p. false;
  head = λ t. 0;
  tree_count = 1;
  pool_count = 0;
  ls = [];
  aborts = 0;
}

-- The keys 10, 20 and 30 in a chain to the right of the node 1.
abbrev chain : Heap
chain = record empty {
  key = λ p. if p == 1 then 10 else if p == 2 then 20 else 30;
  val = λ p. if p == 1 then 11 else if p == 2 then 21 else 31;
  par = λ p. if p == 2 then 1 else if p == 3 then 2 else 0;
  right = λ p. if p == 1 then 2 else if p == 2 then 3 else 0;
  red = λ p. if p == 2 then false else true;
  head = λ t. 1;
}

abbrev chain_tree : Tree
chain_tree = node leaf 1 true 10 11 (node leaf 2 false 20 21 (node leaf 3 true 30 31 leaf))

chain-Is : Is chain chain_tree
chain-Is = ground arith

chain-IsDistinct : IsDistinct chain_tree
chain-IsDistinct =
    (refl, refl, λ q w. cc, tt, (refl, refl, λ q w. cc, tt, (refl, refl, λ q w. cc, tt, tt)))

rbtree_search-Finds_example :
    (p : Ptr) × (rbtree_search 4 comp 0 30 chain ≡ some p) × Finds chain 30 chain_tree p
rbtree_search-Finds_example =
    rbtree_search-Finds 100 comp (λ a b x y. refl) 30 (omega arith) chain chain_tree 0 4 refl
      chain-Is (omega arith) (omega arith) (omega arith)

rotate-Turned_example :
    (next : Ptr) × (g : Heap) × (rotate 3 chain ≡ some (next, g)) × Turned chain chain_tree 0 next g
rotate-Turned_example =
    rotate-Turned chain chain_tree 3
      (far_right leaf leaf leaf leaf 3 2 1 true false true 30 31 20 21 10 11) chain-Is
      chain-IsDistinct refl

-- The keys 10 and 20, with 10 on the left.
abbrev pair : Heap
pair = record empty {
  key = λ p. if p == 1 then 20 else 10;
  val = λ p. if p == 1 then 21 else 11;
  par = λ p. if p == 2 then 1 else 0;
  left = λ p. if p == 1 then 2 else 0;
  head = λ t. 1;
}

-- The left one is red.
abbrev red_pair : Heap
red_pair = record pair { red = λ p. if p == 2 then true else false }

abbrev red_pair_tree : Tree
red_pair_tree = node (node leaf 2 true 10 11 leaf) 1 false 20 21 leaf

red_pair-Is : Is red_pair red_pair_tree
red_pair-Is = ground arith

red_pair-Once : Once red_pair red_pair_tree 11
red_pair-Once y z a b c d = ground arith

-- The entry of the key 20 is deleted: the key 10 then stands with the value 21.
rbtree_delete_loses_example :
    (t : Heap) × (rbtree_delete 3 comp 0 20 red_pair ≡ some t)
    × (t.key 1 ≡ 10)
    × (t.val 1 ≡ 21)
    × Gone t 2 red_pair_tree 11
unfolding choose_node rightmost take_max rbtree_search search_from
rbtree_delete_loses_example =
    rbtree_delete_loses red_pair (take_max 1 2 red_pair).1 comp 0 2 20 1 2 false 20 21 leaf leaf 2
      true 10 11 leaf red_pair-Is (refl, refl, λ q w. cc, (refl, refl, λ q w. cc, tt, tt), tt)
      (omega arith) red_pair-Once refl refl refl

-- A red child of a black top, on the right.
abbrev rising : Heap
rising = record chain {
  right = λ p. if p == 1 then 2 else 0;
  red = λ p. if p == 2 then true else false;
  pool_count = 2;
}

abbrev rising_tree : Tree
rising_tree = node leaf 1 false 10 11 (node leaf 2 true 20 21 leaf)

rising-Is : Is rising rising_tree
rising-Is = ground arith

-- The new key hangs to the right of the red node, and a rotation follows.
rbtree_insert-entries_example :
    Inserts rising 0 rising_tree 30 31 (rbtree_insert 9 comp 0 30 31 rising)
unfolding rbtree_node_alloc
rbtree_insert-entries_example =
    rbtree_insert-entries 100 comp (λ a b x y. refl) 30 31 (omega arith) rising 0 9 rising_tree
      (record {
        holds = rising-Is;
        distinct = (refl, refl, λ q w. cc, tt, (refl, refl, λ q w. cc, tt, tt));
        parent = λ z. refl;
        head = refl;
        black = refl;
      })
      (omega arith) (omega arith) (omega arith) (λ e. absurd (omega arith)) refl

-- Three insertions in rising order end with the middle key at the top.
inserted : Option Heap
unfolding rbtree_insert rbtree_node_alloc hang repair lift rotate rotate_right_right
inserted = elim (rbtree_insert 9 comp 0 10 11 empty) [
  | none ↦ none
  | some h ↦ elim (rbtree_insert 9 comp 0 20 21 h) [
    | none ↦ none
    | some g ↦ rbtree_insert 9 comp 0 30 31 g
  ]
]

abbrev top_key : Option Heap → Option ℕ
top_key none = none
top_key (some h) = some (h.key (h.head 0))

inserted_top : top_key inserted ≡ some 20
unfolding inserted rbtree_insert rbtree_node_alloc hang repair lift rotate rotate_right_right
inserted_top = refl
