-- ===== src/Rbtree/Rotate.antt =====
-- The rotations of rbtree.c, on the trees that they turn.
use t_visor.Prelude.{ℕ, ◌≡◌, ◌≢◌, refl, sym, Bool, true, false, arith}
use t_visor.Rbtree.{
  Ptr, null, Heap, rotate_left_left, rotate_left_right, rotate_right_right, rotate_right_left,
}
use t_visor.Rbtree.Shape.{Tree, leaf, node, root, within, Apart, Under, Is, ne_of_within}
use t_visor.Rbtree.Links.{Tops, Moved, lr-Moved, rl-Moved, rr-Moved, ll-Moved}
use t_visor.Rbtree.Fields.{lr-Holds, rl-Holds, rr-Holds, ll-Holds}
use t_visor.Rbtree.Parts.{
  Parts, Out, Apart-sym, left_left, left_right, right_right, right_left, balanced, swap_ends,
  last_first,
}
use t_visor.Rbtree.Balanced.{Moved-Is, ne-root}

pub within_top : (t : Tree) → root t ≢ null → within (root t) t ≡ true
within_top leaf n = absurd (n refl)
within_top (node l p c k v r) n = ground arith

pub par_top : (h : Heap) (p : Ptr) (t : Tree) → Under h p t → root t ≢ null → h.par (root t) ≡ p
par_top h p leaf u n = absurd (n refl)
par_top h p (node l q c k v r) u n = u

module _ (h : Heap) (a b c d : Tree) (ia : Is h a) (ib : Is h b) (ic : Is h c) (id : Is h d) where
  Parts-Tops :
      (x y z : Ptr) → Parts a b c d x y z → Tops h (root a) (root b) (root c) (root d) x y z
  Parts-Tops x y z o =
      let f = o.four in
      let ne : (t : Tree) (p : Ptr) → root t ≢ null → within p t ≡ false → root t ≢ p =
        λ t p n w. ne_of_within p (root t) t w (within_top t n) in
      let nr : (s t : Tree) → Is h s → root s ≢ null → Apart s t → root s ≢ root t =
        λ s t i n w. ne-root h (root s) s t i (within_top s n) w in
      record {
        xy = o.xy;
        xz = o.xz;
        yz = o.yz;
        top_a = λ n. (
          ne a x n o.ox.0,
          ne a y n o.oy.0,
          ne a z n o.oz.0,
          nr a b ia n f.ab,
          nr a c ia n f.ac,
          nr a d ia n f.ad,
        );
        top_b = λ n. (
          ne b x n o.ox.1,
          ne b y n o.oy.1,
          ne b z n o.oz.1,
          nr b a ib n (Apart-sym a b f.ab),
          nr b c ib n f.bc,
          nr b d ib n f.bd,
        );
        top_c = λ n. (
          ne c x n o.ox.2,
          ne c y n o.oy.2,
          ne c z n o.oz.2,
          nr c a ic n (Apart-sym a c f.ac),
          nr c b ic n (Apart-sym b c f.bc),
          nr c d ic n f.cd,
        );
        top_d = λ n. (
          ne d x n o.ox.3,
          ne d y n o.oy.3,
          ne d z n o.oz.3,
          nr d a id n (Apart-sym a d f.ad),
          nr d b id n (Apart-sym b d f.bd),
          nr d c id n (Apart-sym c d f.cd),
        );
      }

module _ (h : Heap) (a b c d : Tree) (gpar par tar : Ptr) (cx cy cz : Bool)
    (kx vx ky vy kz vz : ℕ) where
  -- The parent of the top is none of the nodes below it.
  abbrev Beyond : Type 0
  Beyond = Out a b c d (h.par gpar) × (h.par gpar ≢ gpar) × (h.par gpar ≢ par) × (h.par gpar ≢ tar)

  abbrev Turns : Heap → Ptr → Ptr → Ptr → Ptr → Tree → Type 0
  Turns g x y z ex t = Is g t × Moved h g (root a) (root b) (root c) (root d) x y z (h.par gpar) ex

  pub lr_lem :
      Is h (left_right a b c d tar par gpar cx cy cz kx vx ky vy kz vz)
      → Parts a b c d tar par gpar
      → Turns
          (rotate_left_right gpar par tar h).1
          gpar
          par
          tar
          gpar
          (balanced a b c d gpar par tar cz cy false kx vx ky vy kz vz)
  lr_lem (og, upar, ud, (op, ua, utar, ia, (ot, ub, uc, ib, ic)), id) o =
      let o' = swap_ends a b c d tar par gpar o in
      let m =
        lr-Moved h gpar par tar o'.xy o'.xz o'.yz (root a) (root b) (root c) (root d)
          (Parts-Tops h a b c d ia ib ic id gpar par tar o') og.not_null op.not_null ot.not_null
          og.right ot.left upar (par_top h par a ua) (par_top h tar c uc) in
      let (hx, hy, hz) =
        lr-Holds h gpar par tar o'.xy o'.xz o'.yz (root a) (root b) (root c) (root d) cx cy cz kx vx
          ky vy kz vz og op ot in
      (
        Moved-Is h (rotate_left_right gpar par tar h).1 a b c d gpar par tar (h.par gpar) gpar o'
            o'.ox m cz cy false kx vx ky vy kz vz ia ib ic id hx hy hz,
        m,
      )

  pub rl_lem :
      Is h (right_left a b c d tar par gpar cx cy cz kx vx ky vy kz vz)
      → Parts a b c d tar par gpar
      → Turns
          (rotate_right_left gpar par tar h).1
          gpar
          tar
          par
          gpar
          (balanced a b c d gpar tar par cz false cy kx vx kz vz ky vy)
  rl_lem (og, ua, upar, ia, (op, utar, ud, (ot, ub, uc, ib, ic), id)) o =
      let o' = last_first a b c d tar par gpar o in
      let s = swap_ends a b c d tar par gpar o in
      let m =
        rl-Moved h gpar par tar s.xy s.xz s.yz (root a) (root b) (root c) (root d)
          (Parts-Tops h a b c d ia ib ic id gpar tar par o') og.not_null op.not_null ot.not_null
          og.left ot.right upar (par_top h tar b ub) (par_top h par d ud) in
      let (hx, hy, hz) =
        rl-Holds h gpar par tar s.xy s.xz s.yz (root a) (root b) (root c) (root d) cx cy cz kx vx ky
          vy kz vz og op ot in
      (
        Moved-Is h (rotate_right_left gpar par tar h).1 a b c d gpar tar par (h.par gpar) gpar o'
            o'.ox m cz false cy kx vx kz vz ky vy ia ib ic id hx hy hz,
        m,
      )

  pub rr_lem :
      Is h (right_right a b c d tar par gpar cx cy cz kx vx ky vy kz vz)
      → Parts a b c d tar par gpar
      → Turns
          (rotate_right_right gpar par tar h).1
          gpar
          tar
          par
          gpar
          (balanced a b c d gpar tar par false cx true ky vy kz vz kx vx)
  rr_lem (og, ua, upar, ia, (op, ub, utar, ib, (ot, uc, ud, ic, id))) o =
      let o' = last_first a b c d tar par gpar o in
      let s = swap_ends a b c d tar par gpar o in
      let m =
        rr-Moved h gpar par tar s.xy s.xz s.yz (root a) (root b) (root c) (root d)
          (Parts-Tops h a b c d ia ib ic id gpar tar par o') og.not_null op.not_null ot.not_null
          og.left op.left ot.left ot.right upar in
      let (hx, hy, hz) =
        rr-Holds h gpar par tar s.xy s.xz s.yz (root a) (root b) (root c) (root d) cx cy cz kx vx ky
          vy kz vz og op ot in
      (
        Moved-Is h (rotate_right_right gpar par tar h).1 a b c d gpar tar par (h.par gpar) gpar o'
            o'.ox m false cx true ky vy kz vz kx vx ia ib ic id hx hy hz,
        m,
      )

  pub ll_lem :
      Is h (left_left a b c d par tar gpar cx cy cz kx vx ky vy kz vz)
      → Parts a b c d par tar gpar
      → Beyond
      → Turns
          (rotate_left_left gpar par tar h).1
          par
          tar
          gpar
          (h.par gpar)
          (balanced a b c d par tar gpar cx cy cz kx vx ky vy kz vz)
  ll_lem (og, upar, ud, (op, utar, uc, (ot, ua, ub, ia, ib), ic), id) o (u, ug, up, ut) =
      let gp : gpar ≢ par = λ e. o.xz (sym e) in
      let gt : gpar ≢ tar = λ e. o.yz (sym e) in
      let m =
        ll-Moved h gpar par tar gp gt o.xy (root a) (root b) (root c) (root d)
          (Parts-Tops h a b c d ia ib ic id par tar gpar o) og.not_null op.not_null ot.not_null ug
          up op.right utar (par_top h tar a ua) (par_top h tar b ub) (par_top h gpar d ud) in
      let (hx, hy, hz) =
        ll-Holds h gpar par tar gp gt o.xy (root a) (root b) (root c) (root d) cx cy cz kx vx ky vy
          kz vz ug up ut og op ot in
      (
        Moved-Is h (rotate_left_left gpar par tar h).1 a b c d par tar gpar (h.par gpar)
            (h.par gpar) o u m cx cy cz kx vx ky vy kz vz ia ib ic id hx hy hz,
        m,
      )
