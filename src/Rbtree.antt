-- ===== src/Rbtree.antt =====
-- rbtree.c: red-black trees of nodes from one pool. A node is its index in `node_pool` plus one, and
-- 0 is NULL. The free nodes `ls` are the sequence of the nodes in the QUEUE_LIST. `none` is a fault:
-- a null pointer is dereferenced, or the fuel of a loop has run out. The comparison of a tree is an
-- argument, and gives the sign of what `comp` returns.
pub mod Delete
pub mod Shape
pub mod Search
pub mod Links
pub mod Fields
pub mod Parts
pub mod Balanced
pub mod Rotate
pub mod Place
pub mod Plug
pub mod Turned
pub mod Turn
pub mod Predecessor
pub mod Around
pub mod Lift
pub mod Standing
pub mod Repair
pub mod Hang
pub mod Added
pub mod Linked
pub mod Insert
mod Tests
use Prim.Native.Nat.{Ordering}
use t_visor.Prelude.{
  ℕ, zero, suc, ◌+◌, Bool, true, false, not, ◌&&◌, ◌||◌, Option, none, some, List, [], ◌∷◌, ◌++◌,
  leb, ◌==◌, if◌then◌else◌,
}
use t_visor.TimerEvent.{put}

abbrev pub Ptr : Type 0
Ptr = ℕ

abbrev pub null : Ptr
null = 0

-- `RBTREE_NODE_POOL_NUM`.
abbrev pub pool_num : ℕ
pool_num = 1024

pub record Heap : Type 0 where
  pub key : Ptr → ℕ
  pub val : Ptr → ℕ
  pub par : Ptr → Ptr
  pub left : Ptr → Ptr
  pub right : Ptr → Ptr
  -- `color == NODE_RED`.
  pub red : Ptr → Bool
  -- `head` of the trees in `tree_pool`.
  pub head : ℕ → Ptr
  pub tree_count : ℕ
  pub pool_count : ℕ
  pub ls : List Ptr
  pub aborts : ℕ

-- The sign of `comp(a, b)`.
abbrev pub Comp : Type 0
Comp = ℕ → ℕ → Ordering

abbrev pub set_key : Ptr → ℕ → Heap → Heap
set_key p v h = record h { key = put h.key p v }

abbrev pub set_val : Ptr → ℕ → Heap → Heap
set_val p v h = record h { val = put h.val p v }

abbrev pub set_par : Ptr → Ptr → Heap → Heap
set_par p v h = record h { par = put h.par p v }

abbrev pub set_left : Ptr → Ptr → Heap → Heap
set_left p v h = record h { left = put h.left p v }

abbrev pub set_right : Ptr → Ptr → Heap → Heap
set_right p v h = record h { right = put h.right p v }

abbrev pub paint : Ptr → Bool → Heap → Heap
paint p c h = record h { red = λ q. if p == q then c else h.red q }

-- `if(p->left) p->left->par = p`, and the same on the right.
abbrev pub adopt_left : Ptr → Heap → Heap
adopt_left p h = record h { par = if h.left p == null then h.par else put h.par (h.left p) p }

abbrev pub adopt_right : Ptr → Heap → Heap
adopt_right p h = record h { par = if h.right p == null then h.par else put h.par (h.right p) p }

-- The key and value of `p`, put into `q`.
abbrev pub copy_entry : Ptr → Ptr → Heap → Heap
copy_entry p q h = record h { key = put h.key q (h.key p); val = put h.val q (h.val p) }

-- The keys and values of `p` and `q` change places.
abbrev pub swap_entries : Ptr → Ptr → Heap → Heap
swap_entries p q h = record h {
  key = put (put h.key p (h.key q)) q (h.key p);
  val = put (put h.val p (h.val q)) q (h.val p);
}

pub rbtree_init : Heap → Heap
rbtree_init h = record h { ls = [] }

-- `tree_pool` has 16 entries; `none` is the write behind them.
pub rbtree_alloc : Heap → Option (ℕ × Heap)
rbtree_alloc h =
    if leb 16 h.tree_count
    then none
    else some (
      h.tree_count,
      record h { head = put h.head h.tree_count null; tree_count = h.tree_count + 1 },
    )

unfoldable pub rbtree_node_alloc : Heap → Ptr × Heap
rbtree_node_alloc h = elim h.ls [
  | [] ↦
      if leb pool_num h.pool_count
      then (null, record h { aborts = h.aborts + 1 })
      else (h.pool_count + 1, record h { pool_count = h.pool_count + 1 })
  | p ∷ rest ↦ (p, record h { ls = rest })
]

-- The link from the parent goes, and the node is free.
pub rbtree_node_free : Ptr → Heap → Heap
rbtree_node_free node h =
    let p = h.par node in
    let cut =
      if p == null then h else if h.left p == node then set_left p null h else set_right p null h in
    record cut { ls = cut.ls ++ node ∷ [] }

-- `if(gpar->par) { if(gpar->par->left==gpar) … = par; else … = par; }`
abbrev pub replace_child : (gpar par : Ptr) → Heap → Heap
replace_child gpar par h =
    let up = h.par gpar in
    record h {
      left = if up == null then h.left else if h.left up == gpar then put h.left up par else h.left;
      right =
          if up == null then h.right else if h.left up == gpar then h.right else put h.right up par;
    }

-- The four cases of `rotate`. The first one turns the links, the others keep `gpar` at the top and
-- move the keys.
unfoldable pub rotate_left_left : (gpar par tar : Ptr) → Heap → Ptr × Heap
rotate_left_left gpar par tar h =
    let a = replace_child gpar par (set_par par (h.par gpar) h) in
    let b = set_par gpar par a in
    let c = set_left gpar (b.right par) b in
    let d = if c.right par == null then c else set_par (c.right par) gpar c in
    (par, set_right par gpar d)

unfoldable pub rotate_left_right : (gpar par tar : Ptr) → Heap → Ptr × Heap
rotate_left_right gpar par tar h =
    let a = swap_entries gpar tar (paint tar false h) in
    let b = adopt_right par (set_right par (a.left tar) a) in
    let c = set_left tar (b.right tar) b in
    let d = adopt_right tar (set_right tar (c.right gpar) c) in
    (gpar, set_par tar gpar (set_right gpar tar d))

-- The keys go round from `tar` to `par`, `gpar` and `tar`.
unfoldable pub rotate_right_right : (gpar par tar : Ptr) → Heap → Ptr × Heap
rotate_right_right gpar par tar h =
    let a = swap_entries par tar (swap_entries gpar par h) in
    let b = adopt_right par (set_right par (a.right tar) a) in
    let c = adopt_right tar (set_right tar (b.left par) b) in
    let d = adopt_left par (set_left par (c.left tar) c) in
    let e = adopt_left tar (set_left tar (d.left gpar) d) in
    let f = set_par tar gpar (set_left gpar tar e) in (gpar, paint par true (paint gpar false f))

unfoldable pub rotate_right_left : (gpar par tar : Ptr) → Heap → Ptr × Heap
rotate_right_left gpar par tar h =
    let a = swap_entries gpar tar (paint tar false h) in
    let b = adopt_left par (set_left par (a.right tar) a) in
    let c = set_right tar (b.left tar) b in
    let d = adopt_left tar (set_left tar (c.left gpar) c) in
    (gpar, set_par tar gpar (set_left gpar tar d))

unfoldable pub rotate : Ptr → Heap → Option (Ptr × Heap)
rotate tar h =
    let par = h.par tar in
    let gpar = h.par par in
    if tar == null || (par == null || gpar == null)
    then none
    else if h.left gpar == par
    then some (
        if h.left par == tar
        then rotate_left_left gpar par tar h
        else rotate_left_right gpar par tar h)
    else some (
        if h.right par == tar
        then rotate_right_right gpar par tar h
        else rotate_right_left gpar par tar h)

-- The walk of `rbtree_insert` from `tmp` down to a free place, where `tar` is hung.
unfoldable pub hang : ℕ → Comp → (tmp tar : Ptr) → Heap → Option Heap
hang zero comp tmp tar h = none
hang (suc n) comp tmp tar h = elim (comp (h.key tmp) (h.key tar)) [
  | Ordering.gt ↦
      let rest = hang n comp (h.right tmp) tar h in
      if h.right tmp == null then some (set_right tmp tar (set_par tar tmp h)) else rest
  | _ ↦
      let rest = hang n comp (h.left tmp) tar h in
      if h.left tmp == null then some (set_left tmp tar (set_par tar tmp h)) else rest
]

-- One round of the second loop: the node that goes on, and the heap. The parent is red.
unfoldable pub lift : Ptr → Heap → Option (Ptr × Heap)
lift tar h =
    let par = h.par tar in
    let gpar = h.par par in
    if gpar == null
    then none
    else let t = paint gpar true (paint par false h) in
      let uncle = if t.left gpar == par then t.right gpar else t.left gpar in
      if not (uncle == null) && t.red uncle then some (gpar, paint uncle false t) else rotate tar t

-- The second loop of `rbtree_insert`; the parent of a red node is dereferenced.
unfoldable pub repair : ℕ → ℕ → Ptr → Heap → Option Heap
repair zero tree tar h = none
repair (suc n) tree tar h =
    if not (h.red tar)
    then some h
    else if h.par tar == null
    then none
    else if not (h.red (h.par tar))
    then some h
    else elim (lift tar h) [
      | none ↦ none
      | some (next, g) ↦
          let rest = repair n tree next g in
          if g.par next == null
          then some (paint next false (record g { head = put g.head tree next }))
          else rest
    ]

pub rbtree_insert : (fuel : ℕ) → Comp → ℕ → ℕ → ℕ → Heap → Option Heap
rbtree_insert fuel comp tree key val h =
    let (tar, g) = rbtree_node_alloc h in
    if tar == null
    then none
    else let t = record g {
      key = put g.key tar key;
      val = put g.val tar val;
      left = put g.left tar null;
      right = put g.right tar null;
      red = λ q. if tar == q then true else g.red q;
    } in
      if t.head tree == null
      then some (record (paint tar false (set_par tar null t)) { head = put t.head tree tar })
      else elim (hang fuel comp (t.head tree) tar t) [
        | none ↦ none
        | some u ↦ repair fuel tree tar u
      ]

-- The walk of `rbtree_search` from `tar`; the result is NULL if the key is not there.
unfoldable pub search_from : ℕ → Comp → ℕ → Ptr → Heap → Option Ptr
search_from zero comp key tar h = none
search_from (suc n) comp key tar h =
    let walk : Option Ptr = elim (comp (h.key tar) key) [
      | Ordering.eq ↦ some tar
      | Ordering.gt ↦ search_from n comp key (h.right tar) h
      | Ordering.lt ↦ search_from n comp key (h.left tar) h
    ] in
    if tar == null then some null else walk

unfoldable pub rbtree_search : (fuel : ℕ) → Comp → ℕ → ℕ → Heap → Option Ptr
unfolding search_from
rbtree_search fuel comp tree key h = search_from fuel comp key (h.head tree) h
