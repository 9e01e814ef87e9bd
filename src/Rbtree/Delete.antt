-- ===== src/Rbtree/Delete.antt =====
-- `rbtree_delete` of rbtree.c.
use t_visor.Prelude.{
  ◌≡◌, refl, arith, ℕ, zero, suc, Bool, true, false, not, ◌&&◌, ◌||◌, Option, none, some, ◌==◌,
  if◌then◌else◌,
}
use t_visor.TimerEvent.{put}
use t_visor.Rbtree.{
  Ptr, null, Heap, Comp, set_key, set_par, set_left, set_right, paint, adopt_left, adopt_right,
  copy_entry, swap_entries, rbtree_search, rbtree_node_free,
}

-- `while(max_node->right!=NULL) max_node = max_node->right;`
unfoldable pub rightmost : ℕ → Ptr → Heap → Option Ptr
rightmost zero p h = none
rightmost (suc n) p h =
    let rest = rightmost n (h.right p) h in if h.right p == null then some p else rest

-- Of the entry that takes the place of the deleted one below a left child only the key is copied.
unfoldable pub take_max : (tar max_node : Ptr) → Heap → Ptr × Heap
take_max tar max_node h =
    let t = set_key tar (h.key max_node) h in
    if t.left max_node == null
    then (max_node, t)
    else (t.left max_node, copy_entry (t.left max_node) max_node t)

-- The first part of `rbtree_delete`: the node that will be freed.
unfoldable pub choose_node : (fuel tree : ℕ) → Ptr → Heap → Option (Ptr × Heap)
choose_node fuel tree tar h =
    if tar == null
    then none
    else if h.left tar == null
    then some (
        if h.right tar == null
        then (tar, if h.head tree == tar then record h { head = put h.head tree null } else h)
        else (h.right tar, copy_entry (h.right tar) tar h))
    else elim (rightmost fuel (h.left tar) h) [ none ↦ none | some m ↦ some (take_max tar m h) ]

-- `p!=NULL&&p->color==NODE_RED`.
abbrev is_red : Ptr → Heap → Bool
is_red p h = not (p == null) && h.red p

-- `tar` is the left child of `tmp`, its sibling `v` is black, and `w` is a red child of `v`, on the left
-- and on the right.
from_near_left : (tmp v w : Ptr) → Heap → Heap
from_near_left tmp v w h =
    let a = swap_entries tmp w h in
    let b = adopt_left v (set_left v (a.right w) a) in
    let c = set_right w (b.left w) b in
    let d = set_left w (c.left tmp) c in
    let e = set_par (d.left w) w d in paint w false (set_left tmp w (set_par w tmp e))

from_far_left : (tmp v w : Ptr) → Heap → Heap
from_far_left tmp v w h =
    let a = set_right tmp w (set_par w tmp (swap_entries tmp v h)) in
    let b = set_right v (a.left v) a in
    let c = set_left v (b.left tmp) b in
    let d = set_par (c.left v) v c in paint w false (set_par v tmp (set_left tmp v d))

-- `tar` is the left child of `tmp`, and its sibling `v` is red.
turn_left : (tmp v : Ptr) → Heap → Heap
turn_left tmp v h =
    let a = swap_entries tmp v h in
    let b = set_right tmp (a.right v) a in
    let c = set_par (b.right tmp) tmp b in
    let d = set_right v (c.left v) c in
    let e = set_left v (d.left tmp) d in
    let f = set_par (e.left v) v e in set_par v tmp (set_left tmp v f)

-- The same with the sides exchanged.
from_near_right : (tmp v w : Ptr) → Heap → Heap
from_near_right tmp v w h =
    let a = swap_entries tmp w h in
    let b = adopt_right v (set_right v (a.left w) a) in
    let c = set_left w (b.right w) b in
    let d = set_right w (c.right tmp) c in
    let e = set_par (d.right w) w d in paint w false (set_right tmp w (set_par w tmp e))

from_far_right : (tmp v w : Ptr) → Heap → Heap
from_far_right tmp v w h =
    let a = set_left tmp w (set_par w tmp (swap_entries tmp v h)) in
    let b = set_left v (a.right v) a in
    let c = set_right v (b.right tmp) b in
    let d = set_par (c.right v) v c in paint w false (set_par v tmp (set_right tmp v d))

turn_right : (tmp v : Ptr) → Heap → Heap
turn_right tmp v h =
    let a = swap_entries tmp v h in
    let b = set_left tmp (a.left v) a in
    let c = set_par (b.left tmp) tmp b in
    let d = set_left v (c.right v) c in
    let e = set_right v (d.right tmp) d in
    let f = set_par (e.right v) v e in set_par v tmp (set_right tmp v f)

-- Neither child of the black sibling `v` is red: the flag is whether `tmp` was black.
sink : (tmp v : Ptr) → Heap → Bool × Ptr × Heap
sink tmp v h = let t = paint v true h in (not (t.red tmp), tmp, paint tmp false t)

step_left : (tmp tar : Ptr) → Heap → Option (Bool × Ptr × Heap)
unfolding from_near_left from_far_left turn_left sink
step_left tmp tar h =
    let v = h.right tmp in
    if v == null
    then none
    else if not (h.red v)
    then some (
        if is_red (h.left v) h
        then (false, tmp, from_near_left tmp v (h.left v) h)
        else if is_red (h.right v) h
        then (false, tmp, from_far_left tmp v (h.right v) h)
        else sink tmp v h)
    else if h.right v == null
    then none
    else some (true, tar, turn_left tmp v h)

-- `tmp->right` is dereferenced by its new place in `v` or `w`.
step_right : (tmp tar : Ptr) → Heap → Option (Bool × Ptr × Heap)
unfolding from_near_right from_far_right turn_right sink
step_right tmp tar h =
    let v = h.left tmp in
    if v == null
    then none
    else if not (h.red v)
    then (if is_red (h.right v) h
        then (if h.right tmp == null
            then none
            else some (false, tmp, from_near_right tmp v (h.right v) h))
        else if is_red (h.left v) h
        then (if h.right tmp == null
            then none
            else some (false, tmp, from_far_right tmp v (h.left v) h))
        else some (sink tmp v h))
    else if h.left v == null || h.right tmp == null
    then none
    else some (true, tar, turn_right tmp v h)

-- `while(flag&&tar->par!=NULL)`.
balance : ℕ → Bool → Ptr → Heap → Option Heap
unfolding step_left step_right
balance zero flag tar h = none
balance (suc n) flag tar h =
    if not flag || (h.par tar == null)
    then some h
    else (let tmp = h.par tar in
        elim (if h.left tmp == tar then step_left tmp tar h else step_right tmp tar h) [
          | none ↦ none
          | some (flag', tar', g) ↦ balance n flag' tar' g
        ])

pub rbtree_delete : (fuel : ℕ) → Comp → ℕ → ℕ → Heap → Option Heap
unfolding choose_node balance
rbtree_delete fuel comp tree val h = elim (rbtree_search fuel comp tree val h) [
  | none ↦ none
  | some tar ↦ elim (choose_node fuel tree tar h) [
    | none ↦ none
    | some (del_tar, g) ↦ elim (balance fuel (not (g.red del_tar)) del_tar g) [
      | none ↦ none
      | some t ↦ some (rbtree_node_free del_tar t)
    ]
  ]
]

-- Where the node that will be freed is red there is nothing to balance.
pub rbtree_delete_red :
    (h g : Heap) (comp : Comp) (tree fuel key : ℕ) (p del : Ptr)
    → rbtree_search (suc fuel) comp tree key h ≡ some p
    → choose_node (suc fuel) tree p h ≡ some (del, g)
    → g.red del ≡ true
    → rbtree_delete (suc fuel) comp tree key h ≡ some (rbtree_node_free del g)
unfolding rbtree_delete
rbtree_delete_red h g comp tree fuel key p del found chosen red =
    rw (found, rbtree_delete) (rw chosen (rw red refl))

pub entries-rbtree_node_free :
    (p : Ptr) (h : Heap)
    → ((rbtree_node_free p h).key ≡ h.key) × ((rbtree_node_free p h).val ≡ h.val)
unfolding rbtree_node_free
entries-rbtree_node_free p h = (ground arith, ground arith)
