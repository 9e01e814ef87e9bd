-- ===== src/Rbtree/Added.antt =====
-- A node of rbtree.c is added to a tree in a place.
use t_visor.Prelude.{ℕ, ◌≡◌, ◌≢◌, refl, sym, ap, Bool, false, inl, inr, ==_of_ne, Bool-cases}
use t_visor.Rbtree.{Ptr}
use t_visor.Rbtree.Shape.{Tree, node, within, Apart, IsDistinct, ne_of_within}
use t_visor.Rbtree.Parts.{out, Apart-sym}
use t_visor.Rbtree.Place.{Place, whole, as_left, as_right, plug, IsDistinct-part}

-- What is outside of the tree is outside of its parts.
pub part-out : (q : Ptr) (s : Tree) (u : Place) → within q (plug s u) ≡ false → within q s ≡ false
part-out q s whole o = o
part-out q s (as_left u p c k v r) o = (out s p c k v r q (part-out q (node s p c k v r) u o)).1
part-out q s (as_right u l p c k v) o = (out l p c k v s q (part-out q (node l p c k v s) u o)).2

-- `t` has the nodes of `s` and `new`.
abbrev pub Adds : Ptr → Tree → Tree → Type 0
Adds new s t = (q : Ptr) → q ≢ new → within q s ≡ false → within q t ≡ false

Adds-left :
    (new : Ptr) (s t : Tree) (p : Ptr) (c : Bool) (k v : ℕ) (r : Tree)
    → Adds new s t
    → Adds new (node s p c k v r) (node t p c k v r)
Adds-left new s t p c k v r a q n o =
    let (x, y, z) = out s p c k v r q o in rw (==_of_ne q p x, a q n y, z) refl

Adds-right :
    (new : Ptr) (l : Tree) (p : Ptr) (c : Bool) (k v : ℕ) (s t : Tree)
    → Adds new s t
    → Adds new (node l p c k v s) (node l p c k v t)
Adds-right new l p c k v s t a q n o =
    let (x, y, z) = out l p c k v s q o in rw (==_of_ne q p x, y, a q n z) refl

Apart-added :
    (new : Ptr) (s t r : Tree) → Adds new s t → within new r ≡ false → Apart s r → Apart t r
Apart-added new s t r a o ap q w = elim (Bool-cases (within q r)) [
  | inr n ↦ n
  | inl y ↦ elim (Bool-cases (within q s)) [
    | inl z ↦ ap q z
    | inr z ↦ absurd (cc (a q (ne_of_within new q r o y) z))
  ]
]

pub IsDistinct-added :
    (new : Ptr) (s t : Tree) (u : Place)
    → IsDistinct (plug s u)
    → within new (plug s u) ≡ false
    → IsDistinct t
    → Adds new s t
    → IsDistinct (plug t u)
IsDistinct-added new s t whole d o e a = e
IsDistinct-added new s t (as_left u p c k v r) d o e a =
    let (ps, pr, ap, ds, dr) = IsDistinct-part (node s p c k v r) u d in
    let (np, ns, nr) = out s p c k v r new (part-out new (node s p c k v r) u o) in
    IsDistinct-added new (node s p c k v r) (node t p c k v r) u d o
      (a p (λ z. np (sym z)) ps, pr, Apart-added new s t r a nr ap, e, dr)
      (Adds-left new s t p c k v r a)
IsDistinct-added new s t (as_right u l p c k v) d o e a =
    let (pl, ps, ap, dl, ds) = IsDistinct-part (node l p c k v s) u d in
    let (np, nl, ns) = out l p c k v s new (part-out new (node l p c k v s) u o) in
    IsDistinct-added new (node l p c k v s) (node l p c k v t) u d o
      (
        pl,
        a p (λ z. np (sym z)) ps,
        Apart-sym t l (Apart-added new s t l a nl (Apart-sym l s ap)),
        dl,
        e,
      )
      (Adds-right new l p c k v s t a)
