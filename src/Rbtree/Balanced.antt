-- ===== src/Rbtree/Balanced.antt =====
-- What the heap holds after a rotation of rbtree.c: the three nodes with the four trees below them.
use t_visor.Prelude.{ℕ, ◌≡◌, ◌≢◌, Bool, true, false, arith}
use t_visor.Rbtree.{Ptr, null, Heap}
use t_visor.Rbtree.Shape.{
  Tree, leaf, node, root, within, Apart, IsDistinct, Under, Holds, Is, Is-same, ne_of_within,
}
use t_visor.Rbtree.Links.{Moved}
use t_visor.Rbtree.Parts.{Parts, Out, balanced, Apart-sym}

pub within-ne-null : (h : Heap) (q : Ptr) (t : Tree) → Is h t → within q t ≡ true → q ≢ null
within-ne-null h q leaf i w = cc
within-ne-null h q (node l p c k v r) (o, ul, ur, il, ir) w =
    ground (arith, o.not_null, within-ne-null h q l il, within-ne-null h q r ir)

-- A node of `s` is not the top of a tree that is apart from it.
pub ne-root :
    (h : Heap) (q : Ptr) (s t : Tree) → Is h s → within q s ≡ true → Apart s t → q ≢ root t
ne-root h q s leaf i w a = within-ne-null h q s i w
ne-root h q s (node l p c k v r) i w a = ground (arith, a q w)

Under-of :
    (h g : Heap) (p : Ptr) (t : Tree) → Is h t → (root t ≢ null → g.par (root t) ≡ p) → Under g p t
Under-of h g p leaf i f = tt
Under-of h g p (node l q c k v r) i f = f i.0.not_null

module _ (h g : Heap) (a b c d : Tree) (x y z up ex : Ptr) where
  module _ (o : Parts a b c d x y z) (u : Out a b c d ex)
      (m : Moved h g (root a) (root b) (root c) (root d) x y z up ex) where
    ne : (t : Tree) (p q : Ptr) → within p t ≡ false → within q t ≡ true → q ≢ p
    ne t p q a b = ne_of_within p q t a b

    -- The node is the top of none of the four.
    abbrev NoTop : Ptr → Type 0
    NoTop q = (q ≢ root a) × (q ≢ root b) × (q ≢ root c) × (q ≢ root d)

    -- A tree below the three nodes stays.
    part :
        (t : Tree)
        → Is h t
        → IsDistinct t
        → (within x t ≡ false) × (within y t ≡ false) × (within z t ≡ false) × (within ex t ≡ false)
        → ((q : Ptr) → within q t ≡ true → q ≢ root t → NoTop q)
        → Is g t
    part t i d (ox, oy, oz, ou) top =
        Is-same h g t i d
          (λ q w. m.kept q (ne t x q ox w) (ne t y q oy w) (ne t z q oz w) (ne t ex q ou w))
          (λ q w n.
            let (na, nb, nc, nd) = top q w n in
            m.par_kept q (within-ne-null h q t i w) (ne t x q ox w) (ne t y q oy w) (ne t z q oz w)
              na nb nc nd)

    pub Moved-Is :
        (cx cy cz : Bool) (kx vx ky vy kz vz : ℕ)
        → Is h a
        → Is h b
        → Is h c
        → Is h d
        → Holds g y x cx kx vx z
        → Holds g (root a) y cy ky vy (root b)
        → Holds g (root c) z cz kz vz (root d)
        → Is g (balanced a b c d x y z cx cy cz kx vx ky vy kz vz)
    Moved-Is cx cy cz kx vx ky vy kz vz ia ib ic id hx hy hz =
        let f = o.four in
        let ga =
          part a ia f.da (o.ox.0, o.oy.0, o.oz.0, u.0)
            (λ q w n. (
              n,
              ne-root h q a b ia w f.ab,
              ne-root h q a c ia w f.ac,
              ne-root h q a d ia w f.ad,
            )) in
        let gb =
          part b ib f.db (o.ox.1, o.oy.1, o.oz.1, u.1)
            (λ q w n. (
              ne-root h q b a ib w (Apart-sym a b f.ab),
              n,
              ne-root h q b c ib w f.bc,
              ne-root h q b d ib w f.bd,
            )) in
        let gc =
          part c ic f.dc (o.ox.2, o.oy.2, o.oz.2, u.2)
            (λ q w n. (
              ne-root h q c a ic w (Apart-sym a c f.ac),
              ne-root h q c b ic w (Apart-sym b c f.bc),
              n,
              ne-root h q c d ic w f.cd,
            )) in
        let gd =
          part d id f.dd (o.ox.3, o.oy.3, o.oz.3, u.3)
            (λ q w n. (
              ne-root h q d a id w (Apart-sym a d f.ad),
              ne-root h q d b id w (Apart-sym b d f.bd),
              ne-root h q d c id w (Apart-sym c d f.cd),
              n,
            )) in
        (
          hx,
          m.par_y,
          m.par_z,
          (hy, Under-of h g y a ia m.par_a, Under-of h g y b ib m.par_b, ga, gb),
          (hz, Under-of h g z c ic m.par_c, Under-of h g z d id m.par_d, gc, gd),
        )
