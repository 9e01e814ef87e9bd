-- ===== src/Rbtree/Repair.antt =====
-- The second loop of `rbtree_insert` in rbtree.c, from a place up to the top of the tree.
use t_visor.Prelude.{
  ℕ, zero, suc, ◌<◌, ◌≡◌, ◌≢◌, refl, sym, ap, subst, ◌∙◌, Bool, true, false, some, arith, ==_self,
  ==_of_ne,
}
use t_visor.TimerEvent.{put}
use t_visor.Rbtree.{Ptr, null, Heap, paint, lift, repair}
use t_visor.Rbtree.Shape.{Tree, leaf, node, root, entries, IsDistinct, Is, Is-same}
use t_visor.Rbtree.Place.{
  Place, whole, as_left, as_right, plug, up_of, depth, Is-part, par-up, entries-plug,
}
use t_visor.Rbtree.Turned.{far_left, near_left, far_right, near_right}
use t_visor.Rbtree.Around.{paint-Is}
use t_visor.Rbtree.Lift.{Lifted, Lifts, lift_left, lift_right}
use t_visor.Rbtree.Standing.{Standing, is_whole, same_top, top-out, root-ne, up-ne}

-- What the loop gives: a tree with the same entries.
abbrev pub Repairs : Heap → ℕ → ℕ → Ptr → Tree → Type 0
Repairs h n tree tar t =
    (g : Heap) × (t' : Tree) × (repair n tree tar h ≡ some g)
    × Standing g tree t'
    × (entries t' ≡ entries t)

head-Is :
    (h : Heap) (tree p : ℕ) (t : Tree)
    → Is h t
    → IsDistinct t
    → Is (record h { head = put h.head tree p }) t
head-Is h tree p t i d =
    Is-same h (record h { head = put h.head tree p }) t i d
      (λ q w. record { left = refl; right = refl; red = refl; key = refl; val = refl })
      (λ q w n. refl)

stops_black : (h : Heap) (n tree tar : ℕ) → h.red tar ≡ false → repair (suc n) tree tar h ≡ some h
unfolding repair
stops_black h n tree tar e = rw e refl

stops_below :
    (h : Heap) (n tree tar : ℕ)
    → h.par tar ≢ null
    → h.red (h.par tar) ≡ false
    → repair (suc n) tree tar h ≡ some h
unfolding repair
stops_below h n tree tar e f = ground arith

-- The round that reaches the top, and one that does not.
ends :
    (h : Heap) (n tree tar next : ℕ) (g : Heap)
    → h.red tar ≡ true
    → h.par tar ≢ null
    → h.red (h.par tar) ≡ true
    → lift tar h ≡ some (next, g)
    → g.par next ≡ null
    → repair (suc n) tree tar h ≡ some (paint next false (record g { head = put g.head tree next }))
unfolding repair
ends h n tree tar next g a b c d e = rw (a, ==_of_ne (h.par tar) null b, c, d, e) refl

goes_on :
    (h : Heap) (n tree tar next : ℕ) (g : Heap)
    → h.red tar ≡ true
    → h.par tar ≢ null
    → h.red (h.par tar) ≡ true
    → lift tar h ≡ some (next, g)
    → g.par next ≢ null
    → repair (suc n) tree tar h ≡ repair n tree next g
unfolding repair
goes_on h n tree tar next g a b c d e =
    rw (a, ==_of_ne (h.par tar) null b, c, d, ==_of_ne (g.par next) null e) refl

-- The top is painted black.
blackened :
    (tree : ℕ) (t : Tree) (next : Ptr) (g : Heap)
    → Is g t
    → IsDistinct t
    → root t ≡ next
    → next ≢ null
    → g.par next ≡ null
    → (t' : Tree) × Standing (paint next false (record g { head = put g.head tree next })) tree t'
      × (entries t' ≡ entries t)
blackened tree leaf next g i d e n p = absurd (n (sym e))
blackened tree (node l q c k v r) next g i d e n p =
    let f = record g { head = put g.head tree next } in
    (
      node l q false k v r,
      record {
        holds =
            subst (λ x. Is (paint x false f) (node l q false k v r)) e
              (paint-Is f l q c k v r whole false (head-Is g tree next (node l q c k v r) i d) d);
        distinct = d;
        parent = λ x. ap g.par e ∙ p;
        head = rw (==_self tree) (sym e);
        black = refl;
      },
      refl,
    )

-- What the rest of the loop gives, on fuel above the depth of the place.
abbrev Rest : ℕ → ℕ → Type 0
Rest n tree =
    (h : Heap) (s : Tree) (u : Place)
    → Standing h tree (plug s u)
    → root s ≢ null
    → depth u < n
    → Repairs h n tree (root s) (plug s u)

kept :
    (h g : Heap) (tree : ℕ) (s : Tree) (u : Place) (next : Ptr)
    → Standing h tree (plug s u)
    → root s ≢ null
    → is_whole u ≡ false
    → (x : Lifted h s u next g) → Standing g tree (plug x.lifted u)
kept h g tree s u next a n w x =
    let (same, red) = same_top s x.lifted u w in
    let top = root-ne h s u a.holds n in
    record {
      holds = x.holds;
      distinct = x.distinct;
      parent = λ z.
          ap g.par (sym same)
          ∙ x.same_par (root (plug s u)) (top-out s u a.distinct w) top
          ∙ a.parent top;
      head = ap (λ f. f tree) x.same_head ∙ a.head ∙ same;
      black = sym red ∙ a.black;
    }

-- A round, and the rest of the loop.
module _ (h : Heap) (n tree tar : ℕ) (s : Tree) (rest : Rest n tree) (m : root s ≢ null)
    (red : h.red tar ≡ true) (p : h.par tar ≢ null) (up : h.red (h.par tar) ≡ true) where
  round_below :
      (u : Place)
      → is_whole u ≡ false
      → Standing h tree (plug s u)
      → depth u < n
      → Lifts h tar s u
      → Repairs h (suc n) tree tar (plug s u)
  round_below u w a f (next, g, done, x) =
      let above : g.par next ≢ null = λ e. up-ne h s u a.holds w (sym x.parent ∙ e) in
      let (g', t', e, stands, same) =
        rest g x.lifted u (kept h g tree s u next a m w x) (λ z. x.not_null (sym x.top ∙ z)) f in
      (
        g',
        t',
        goes_on h n tree tar next g red p up done above
            ∙ ap (λ z. repair n tree z g) (sym x.top)
            ∙ e,
        stands,
        same ∙ entries-plug x.lifted s u x.same_entries,
      )

  pub round :
      (u : Place)
      → Standing h tree (plug s u)
      → depth u < n
      → Lifts h tar s u
      → Repairs h (suc n) tree tar (plug s u)
  round whole a f (next, g, done, x) =
      let (t', stands, same) =
        blackened tree x.lifted next g x.holds x.distinct x.top x.not_null x.parent in
      (
        paint next false (record g { head = put g.head tree next }),
        t',
        ends h n tree tar next g red p up done x.parent,
        stands,
        same ∙ x.same_entries,
      )
  round (as_left u q c k v r) a f x = round_below (as_left u q c k v r) refl a f x
  round (as_right u l q c k v) a f x = round_below (as_right u l q c k v) refl a f x

-- A round, where the node and its parent are red.
module _ (h : Heap) (n tree : ℕ) (rest : Rest n tree) (a : Tree) (tar : Ptr) (k v : ℕ) (b : Tree)
    (par : Ptr) (kp vp : ℕ) (gpar : Ptr) (cg : Bool) (kg vg : ℕ) (u : Place) (f : depth u < n) where
  abbrev lower : Tree
  lower = node a tar true k v b

  in_place : (t : Tree) → Standing h tree (plug t u) → root t ≢ null → h.par (root t) ≡ up_of u
  in_place t w m = par-up h t u w.holds (w.parent (root-ne h t u w.holds m)) m

  module _ (c d : Tree) where
    far_left_round :
        Standing h tree (plug (node (node lower par true kp vp c) gpar cg kg vg d) u)
        → Repairs h (suc n) tree tar (plug (node (node lower par true kp vp c) gpar cg kg vg d) u)
    far_left_round w =
        let t = node (node lower par true kp vp c) gpar cg kg vg d in
        let (og, x, y, (op, z, j, js, jc), jd) = Is-part h t u w.holds in
        round h n tree tar t rest og.not_null js.0.red (λ e. op.not_null (sym z ∙ e))
          (ap h.red z ∙ op.red) u w f
          (lift_left h tar u lower par true kp vp c gpar cg kg vg (in_place t w og.not_null) z d
            w.holds w.distinct (far_left a b c d par tar gpar false true true kp vp k v kg vg))

    near_left_round :
        Standing h tree (plug (node (node c par true kp vp lower) gpar cg kg vg d) u)
        → Repairs h (suc n) tree tar (plug (node (node c par true kp vp lower) gpar cg kg vg d) u)
    near_left_round w =
        let t = node (node c par true kp vp lower) gpar cg kg vg d in
        let (og, x, y, (op, j, z, jc, js), jd) = Is-part h t u w.holds in
        round h n tree tar t rest og.not_null js.0.red (λ e. op.not_null (sym z ∙ e))
          (ap h.red z ∙ op.red) u w f
          (lift_left h tar u c par true kp vp lower gpar cg kg vg (in_place t w og.not_null) z d
            w.holds w.distinct (near_left c a b d tar par gpar true false true k v kp vp kg vg))

    far_right_round :
        Standing h tree (plug (node d gpar cg kg vg (node c par true kp vp lower)) u)
        → Repairs h (suc n) tree tar (plug (node d gpar cg kg vg (node c par true kp vp lower)) u)
    far_right_round w =
        let t = node d gpar cg kg vg (node c par true kp vp lower) in
        let (og, x, y, jd, (op, j, z, jc, js)) = Is-part h t u w.holds in
        round h n tree tar t rest og.not_null js.0.red (λ e. op.not_null (sym z ∙ e))
          (ap h.red z ∙ op.red) u w f
          (lift_right h tar u c par true kp vp lower gpar cg kg vg (in_place t w og.not_null) z d
            w.holds w.distinct (far_right d c a b tar par gpar true false true k v kp vp kg vg))

    near_right_round :
        Standing h tree (plug (node d gpar cg kg vg (node lower par true kp vp c)) u)
        → Repairs h (suc n) tree tar (plug (node d gpar cg kg vg (node lower par true kp vp c)) u)
    near_right_round w =
        let t = node d gpar cg kg vg (node lower par true kp vp c) in
        let (og, x, y, jd, (op, z, j, js, jc)) = Is-part h t u w.holds in
        round h n tree tar t rest og.not_null js.0.red (λ e. op.not_null (sym z ∙ e))
          (ap h.red z ∙ op.red) u w f
          (lift_right h tar u lower par true kp vp c gpar cg kg vg (in_place t w og.not_null) z d
            w.holds w.distinct (near_right d a b c tar par gpar true false true k v kp vp kg vg))

two_less : (d n : ℕ) → suc (suc d) < suc n → d < n
two_less d n f = omega arith

-- The loop, from any node of a tree with a black top.
pub repair-Rest : (n tree : ℕ) → Rest n tree
repair-Rest zero tree h s u w m f = absurd (omega arith)
repair-Rest (suc n) tree h leaf u w m f = absurd (m refl)
repair-Rest (suc n) tree h (node a p c k v b) whole w m f =
    (h, node a p c k v b, stops_black h n tree p (w.holds.0.red ∙ w.black), w, refl)
repair-Rest (suc n) tree h (node a p false k v b) (as_left u q d kq vq r) w m f =
    let t = node a p false k v b in
    let i = Is-part h t (as_left u q d kq vq r) w.holds in
    (h, plug t (as_left u q d kq vq r), stops_black h n tree p i.0.red, w, refl)
repair-Rest (suc n) tree h (node a p false k v b) (as_right u l q d kq vq) w m f =
    let t = node a p false k v b in
    let i = Is-part h t (as_right u l q d kq vq) w.holds in
    (h, plug t (as_right u l q d kq vq), stops_black h n tree p i.0.red, w, refl)
repair-Rest (suc n) tree h (node a p true k v b) (as_left u q false kq vq r) w m f =
    let t = node a p true k v b in
    let i = Is-part h (node t q false kq vq r) u w.holds in
    (
      h,
      plug t (as_left u q false kq vq r),
      stops_below h n tree p (λ e. i.0.not_null (sym i.1 ∙ e)) (ap h.red i.1 ∙ i.0.red),
      w,
      refl,
    )
repair-Rest (suc n) tree h (node a p true k v b) (as_right u l q false kq vq) w m f =
    let t = node a p true k v b in
    let i = Is-part h (node l q false kq vq t) u w.holds in
    (
      h,
      plug t (as_right u l q false kq vq),
      stops_below h n tree p (λ e. i.0.not_null (sym i.2 ∙ e)) (ap h.red i.2 ∙ i.0.red),
      w,
      refl,
    )
repair-Rest (suc n) tree h (node a p true k v b) (as_left whole q true kq vq r) w m f =
    absurd (cc w.black)
repair-Rest (suc n) tree h (node a p true k v b) (as_right whole l q true kq vq) w m f =
    absurd (cc w.black)
repair-Rest (suc n) tree h (node a p true k v b) (as_left (as_left u g cg kg vg d) q true kq vq c) w
      m f =
    far_left_round h n tree (repair-Rest n tree) a p k v b q kq vq g cg kg vg u
      (two_less (depth u) n f) c d w
repair-Rest (suc n) tree h (node a p true k v b) (as_right (as_left u g cg kg vg d) c q true kq vq)
      w m f =
    near_left_round h n tree (repair-Rest n tree) a p k v b q kq vq g cg kg vg u
      (two_less (depth u) n f) c d w
repair-Rest (suc n) tree h (node a p true k v b) (as_right (as_right u d g cg kg vg) c q true kq vq)
      w m f =
    far_right_round h n tree (repair-Rest n tree) a p k v b q kq vq g cg kg vg u
      (two_less (depth u) n f) c d w
repair-Rest (suc n) tree h (node a p true k v b) (as_left (as_right u d g cg kg vg) q true kq vq c)
      w m f =
    near_right_round h n tree (repair-Rest n tree) a p k v b q kq vq g cg kg vg u
      (two_less (depth u) n f) c d w
