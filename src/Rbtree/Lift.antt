-- ===== src/Rbtree/Lift.antt =====
-- One round of the second loop of `rbtree_insert` in rbtree.c, inside a larger tree.
use t_visor.Prelude.{
  ℕ, ◌≡◌, ◌≢◌, refl, sym, ap, subst, ◌∙◌, Bool, true, false, not, ◌&&◌, some, ◌==◌, if◌then◌else◌,
  ==_self, ==_of_ne, inl, inr, Bool-cases,
}
use t_visor.Rbtree.{Ptr, null, Heap, paint, lift, rotate}
use t_visor.Rbtree.Shape.{Tree, leaf, node, root, entries, within, IsDistinct, Is, in_top}
use t_visor.Rbtree.Parts.{Apart-sym}
use t_visor.Rbtree.Balanced.{within-ne-null, ne-root}
use t_visor.Rbtree.Place.{
  Place, as_left, as_right, plug, up_of, Is-part, IsDistinct-part, IsDistinct-plug,
}
use t_visor.Rbtree.Turned.{Bent, Turned}
use t_visor.Rbtree.Turn.{rotate-Turned}
use t_visor.Rbtree.Around.{up-out, Turned-plug, paint-Is}

-- The heap `g` holds the whole tree with a part in the place of `s`, whose top is `next`.
pub record Lifted (h : Heap) (s : Tree) (u : Place) (next : Ptr) (g : Heap) : Type 0 where
  pub lifted : Tree
  pub holds : Is g (plug lifted u)
  pub distinct : IsDistinct (plug lifted u)
  pub top : root lifted ≡ next
  pub not_null : next ≢ null
  pub same_entries : entries lifted ≡ entries s
  pub parent : g.par next ≡ up_of u
  pub same_head : g.head ≡ h.head
  pub same_par : (q : Ptr) → within q s ≡ false → q ≢ null → g.par q ≡ h.par q

beyond :
    (h : Heap) (s : Tree) (u : Place) → Is h s → IsDistinct (plug s u) → within (up_of u) s ≡ false
beyond h s u i d = elim (Bool-cases (within (up_of u) s)) [
  | inr n ↦ n
  | inl y ↦ up-out s u d (within-ne-null h (up_of u) s i y)
]

-- A rotation, as a round.
turned-Lifted :
    (h : Heap) (s : Tree) (u : Place) (tar : Ptr)
    → Bent s tar
    → Is h (plug s u)
    → IsDistinct (plug s u)
    → root s ≢ null
    → h.par (root s) ≡ up_of u
    → (next : Ptr) × (g : Heap) × (rotate tar h ≡ some (next, g)) × Lifted h s u next g
turned-Lifted h s u tar b i d n e =
    let is = Is-part h s u i in
    let (next, g, done, t0) =
      rotate-Turned h s tar b is (IsDistinct-part s u d) (rw e (beyond h s u is d)) in
    let t : Turned h s (up_of u) next g = subst (λ p. Turned h s p next g) e t0 in
    (
      next,
      g,
      done,
      record {
        lifted = t.turned;
        holds = Turned-plug h g s u next i d n t;
        distinct = IsDistinct-plug s t.turned u d t.distinct t.inside;
        top = t.top;
        not_null = t.not_null;
        same_entries = t.same_entries;
        parent = t.parent;
        same_head = t.same_head;
        same_par = t.same_par;
      },
    )

-- The heap after the two colours that every round paints.
abbrev painted : Heap → (par gpar : Ptr) → Heap
painted h par gpar = paint gpar true (paint par false h)

step_left :
    (h : Heap) (tar par gpar : Ptr)
    → h.par tar ≡ par
    → h.par par ≡ gpar
    → gpar ≢ null
    → h.left gpar ≡ par
    → lift tar h ≡ (
        if not (h.right gpar == null) && (painted h par gpar).red (h.right gpar)
        then some (gpar, paint (h.right gpar) false (painted h par gpar))
        else rotate tar (painted h par gpar))
unfolding lift
step_left h tar par gpar a b n l = rw (a, b, ==_of_ne gpar null n, l, ==_self par) refl

step_right :
    (h : Heap) (tar par gpar : Ptr)
    → h.par tar ≡ par
    → h.par par ≡ gpar
    → gpar ≢ null
    → h.left gpar ≢ par
    → lift tar h ≡ (
        if not (h.left gpar == null) && (painted h par gpar).red (h.left gpar)
        then some (gpar, paint (h.left gpar) false (painted h par gpar))
        else rotate tar (painted h par gpar))
unfolding lift
step_right h tar par gpar a b n l =
    rw (a, b, ==_of_ne gpar null n, ==_of_ne (h.left gpar) par l) refl

-- What a round gives.
abbrev pub Lifts : Heap → Ptr → Tree → Place → Type 0
Lifts h tar s u = (next : Ptr) × (g : Heap) × (lift tar h ≡ some (next, g)) × Lifted h s u next g

-- The same trees with other colours.
repainted :
    (h : Heap) (s t : Tree) (u : Place) (par gpar next : Ptr) (g : Heap)
    → entries t ≡ entries s
    → ((q : Ptr) → within q s ≡ false → within q t ≡ false)
    → Lifted (painted h par gpar) t u next g
    → Lifted h s u next g
repainted h s t u par gpar next g e f x = record {
  lifted = x.lifted;
  holds = x.holds;
  distinct = x.distinct;
  top = x.top;
  not_null = x.not_null;
  same_entries = x.same_entries ∙ e;
  parent = x.parent;
  same_head = x.same_head;
  same_par = λ q w n. x.same_par q (f q w) n;
}

module _ (h : Heap) (tar : Ptr) (u : Place) (l : Tree) (par : Ptr) (cp : Bool) (kp vp : ℕ)
    (r : Tree) (gpar : Ptr) (cg : Bool) (kg vg : ℕ) where
  abbrev t : Heap
  t = painted h par gpar

  abbrev upper : Bool → Tree
  upper c = node l par c kp vp r

  -- `par` is the left child of `gpar`, or the right one.
  abbrev pub before_left : Tree → Tree
  before_left d = node (upper cp) gpar cg kg vg d

  abbrev pub before_right : Tree → Tree
  before_right d = node d gpar cg kg vg (upper cp)

  abbrev pub after_left : Tree → Tree
  after_left d = node (upper false) gpar true kg vg d

  abbrev pub after_right : Tree → Tree
  after_right d = node d gpar true kg vg (upper false)

  module _ (e : h.par gpar ≡ up_of u) (a : h.par tar ≡ par) where
    module _ (d : Tree) (i : Is h (plug (before_left d) u))
        (w : IsDistinct (plug (before_left d) u)) where
      left-Is : Is t (plug (after_left d) u)
      left-Is =
          let i1 = paint-Is h l par cp kp vp r (as_left u gpar cg kg vg d) false i w in
          let w1 =
            IsDistinct-plug (before_left d) (node (upper false) gpar cg kg vg d) u w
              (IsDistinct-part (before_left d) u w) (λ q z. z) in
          paint-Is (paint par false h) (upper false) gpar cg kg vg d u true i1 w1

      left-IsDistinct : IsDistinct (plug (after_left d) u)
      left-IsDistinct =
          IsDistinct-plug (before_left d) (after_left d) u w (IsDistinct-part (before_left d) u w)
            (λ q z. z)

      left_turned :
          Bent (after_left d) tar
          → (not (root d == null) && t.red (root d)) ≡ false
          → Lifts h tar (before_left d) u
      left_turned b c =
          let (o, up, ud, ip, id) = Is-part h (before_left d) u i in
          let (next, g, done, x) =
            turned-Lifted t (after_left d) u tar b left-Is left-IsDistinct o.not_null e in
          (
            next,
            g,
            step_left h tar par gpar a up o.not_null o.left ∙ rw (o.right, c) done,
            repainted h (before_left d) (after_left d) u par gpar next g refl (λ q z. z) x,
          )

    module _ (d : Tree) (i : Is h (plug (before_right d) u))
        (w : IsDistinct (plug (before_right d) u)) where
      right-Is : Is t (plug (after_right d) u)
      right-Is =
          let i1 = paint-Is h l par cp kp vp r (as_right u d gpar cg kg vg) false i w in
          let w1 =
            IsDistinct-plug (before_right d) (node d gpar cg kg vg (upper false)) u w
              (IsDistinct-part (before_right d) u w) (λ q z. z) in
          paint-Is (paint par false h) d gpar cg kg vg (upper false) u true i1 w1

      right-IsDistinct : IsDistinct (plug (after_right d) u)
      right-IsDistinct =
          IsDistinct-plug (before_right d) (after_right d) u w
            (IsDistinct-part (before_right d) u w) (λ q z. z)

      -- `par` is not on the left too.
      other_side : h.left gpar ≢ par
      other_side z =
          let (o, ud, up, id, ip) = Is-part h (before_right d) u i in
          let (gd, gp, ap, dd, dp) = IsDistinct-part (before_right d) u w in
          ne-root h par (upper cp) d ip (in_top l par cp kp vp r) (Apart-sym d (upper cp) ap)
            (sym z ∙ o.left)

      right_turned :
          Bent (after_right d) tar
          → (not (root d == null) && t.red (root d)) ≡ false
          → Lifts h tar (before_right d) u
      right_turned b c =
          let (o, ud, up, id, ip) = Is-part h (before_right d) u i in
          let (next, g, done, x) =
            turned-Lifted t (after_right d) u tar b right-Is right-IsDistinct o.not_null e in
          (
            next,
            g,
            step_right h tar par gpar a up o.not_null other_side ∙ rw (o.left, c) done,
            repainted h (before_right d) (after_right d) u par gpar next g refl (λ q z. z) x,
          )

    -- A red uncle is painted black, and its parent goes on.
    pub lift_left :
        (d : Tree)
        → Is h (plug (before_left d) u)
        → IsDistinct (plug (before_left d) u)
        → Bent (after_left d) tar
        → Lifts h tar (before_left d) u
    lift_left leaf i w b = left_turned leaf i w b refl
    lift_left (node dl un false kd vd dr) i w b =
        let (o, x, y, z, id) =
          Is-part t (after_left (node dl un false kd vd dr)) u (left-Is _ i w) in
        left_turned (node dl un false kd vd dr) i w b
          (rw (id.0.red, ==_of_ne un null id.0.not_null) refl)
    lift_left (node dl un true kd vd dr) i w b =
        let d = node dl un true kd vd dr in
        let (o, x, y, z, id) = Is-part t (after_left d) u (left-Is d i w) in
        let c : (not (un == null) && t.red un) ≡ true =
          rw (id.0.red, ==_of_ne un null id.0.not_null) refl in
        let (ho, hp, hd, hi, hj) = Is-part h (before_left d) u i in
        let d' = node dl un false kd vd dr in
        (
          gpar,
          paint un false t,
          step_left h tar par gpar a hp ho.not_null ho.left ∙ rw (ho.right, c) refl,
          record {
            lifted = after_left d';
            holds =
                paint-Is t dl un true kd vd dr (as_right u (upper false) gpar true kg vg) false
                  (left-Is d i w) (left-IsDistinct d i w);
            distinct =
                IsDistinct-plug (before_left d) (after_left d') u w
                  (IsDistinct-part (before_left d) u w) (λ q z. z);
            top = refl;
            not_null = ho.not_null;
            same_entries = refl;
            parent = e;
            same_head = refl;
            same_par = λ q z n. refl;
          },
        )

    pub lift_right :
        (d : Tree)
        → Is h (plug (before_right d) u)
        → IsDistinct (plug (before_right d) u)
        → Bent (after_right d) tar
        → Lifts h tar (before_right d) u
    lift_right leaf i w b = right_turned leaf i w b refl
    lift_right (node dl un false kd vd dr) i w b =
        let (o, x, y, id, z) =
          Is-part t (after_right (node dl un false kd vd dr)) u (right-Is _ i w) in
        right_turned (node dl un false kd vd dr) i w b
          (rw (id.0.red, ==_of_ne un null id.0.not_null) refl)
    lift_right (node dl un true kd vd dr) i w b =
        let d = node dl un true kd vd dr in
        let (o, x, y, id, z) = Is-part t (after_right d) u (right-Is d i w) in
        let c : (not (un == null) && t.red un) ≡ true =
          rw (id.0.red, ==_of_ne un null id.0.not_null) refl in
        let (ho, hd, hp, hi, hj) = Is-part h (before_right d) u i in
        let d' = node dl un false kd vd dr in
        (
          gpar,
          paint un false t,
          step_right h tar par gpar a hp ho.not_null (other_side d i w) ∙ rw (ho.left, c) refl,
          record {
            lifted = after_right d';
            holds =
                paint-Is t dl un true kd vd dr (as_left u gpar true kg vg (upper false)) false
                  (right-Is d i w) (right-IsDistinct d i w);
            distinct =
                IsDistinct-plug (before_right d) (after_right d') u w
                  (IsDistinct-part (before_right d) u w) (λ q z. z);
            top = refl;
            not_null = ho.not_null;
            same_entries = refl;
            parent = e;
            same_head = refl;
            same_par = λ q z n. refl;
          },
        )
