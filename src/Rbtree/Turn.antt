-- ===== src/Rbtree/Turn.antt =====
-- `rotate` of rbtree.c in its four cases.
use mathlib.Core.List.{append_assoc}
use t_visor.Prelude.{ℕ, ◌≡◌, ◌≢◌, refl, sym, ◌∙◌, Bool, true, false, some, inl, inr, Bool-cases}
use t_visor.Rbtree.{
  Ptr, Heap, rotate_left_left, rotate_left_right, rotate_right_right, rotate_right_left, rotate,
}
use t_visor.Rbtree.Shape.{Tree, node, root, within, IsDistinct, Is}
use t_visor.Rbtree.Parts.{
  Out, out, left_left, left_right, right_right, right_left, balanced, left_left-Parts,
  left_right-Parts, right_right-Parts, right_left-Parts, balanced-IsDistinct, swap_ends, last_first,
}
use t_visor.Rbtree.Rotate.{lr_lem, rl_lem, rr_lem, ll_lem}
use t_visor.Rbtree.Turned.{
  Bent, far_left, near_left, far_right, near_right, Turned, top-ne, ll_head, balanced-Out,
  Moved-same, Relinked-same, ll-Relinked, picks_left_left, picks_left_right, picks_right_right,
  picks_right_left,
}

-- What `rotate` gives.
abbrev Rotates : Heap → Tree → Ptr → Type 0
Rotates h s tar =
    (next : Ptr) × (g : Heap) × (rotate tar h ≡ some (next, g)) × Turned h s (h.par (root s)) next g

module _ (h : Heap) (a b c d : Tree) (gpar par tar : Ptr) (cx cy cz : Bool)
    (kx vx ky vy kz vz : ℕ) where
  near_left-Rotates :
      Is h (left_right a b c d tar par gpar cx cy cz kx vx ky vy kz vz)
      → IsDistinct (left_right a b c d tar par gpar cx cy cz kx vx ky vy kz vz)
      → within (h.par gpar) (left_right a b c d tar par gpar cx cy cz kx vx ky vy kz vz) ≡ false
      → Rotates h (left_right a b c d tar par gpar cx cy cz kx vx ky vy kz vz) tar
  unfolding rotate_left_right
  near_left-Rotates i w o =
      let ps = left_right-Parts a b c d tar par gpar cx cy cz kx vx ky vy kz vz w in
      let far : (q : Ptr)
          → within q (left_right a b c d tar par gpar cx cy cz kx vx ky vy kz vz) ≡ false
          → (q ≢ gpar) × (q ≢ par) × (q ≢ tar) × Out a b c d q =
        λ q o.
          let (ug, os, od) =
            out (node a par cy ky vy (node b tar cx kx vx c)) gpar cz kz vz d q o in
          let (up, oa, os') = out a par cy ky vy (node b tar cx kx vx c) q os in
          let (ut, ob, oc) = out b tar cx kx vx c q os' in (ug, up, ut, (oa, ob, oc, od)) in
      let (is, m) = lr_lem h a b c d gpar par tar cx cy cz kx vx ky vy kz vz i ps in
      let (og, upar, ud, (op, ua, utar, ia, (ot, ub, uc, ib, ic)), id) = i in
      let done =
        picks_left_right h gpar par tar og.not_null op.not_null ot.not_null utar upar og.left
          (λ e. top-ne a tar ot.not_null ps.ox.0 (sym (op.left) ∙ e)) in
      (
        gpar,
        (rotate_left_right gpar par tar h).1,
        done,
        record {
          turned = balanced a b c d gpar par tar cz cy false kx vx ky vy kz vz;
          holds = is;
          distinct =
              balanced-IsDistinct a b c d gpar par tar cz cy false kx vx ky vy kz vz
                (swap_ends a b c d tar par gpar ps);
          top = refl;
          not_null = og.not_null;
          same_entries = simp append_assoc;
          inside = λ q w.
              elim (Bool-cases
                (within q (left_right a b c d tar par gpar cx cy cz kx vx ky vy kz vz))) [
                  | inl y ↦ y
                  | inr n ↦
                      let (x, y, z, k) = far q n in
                      absurd (
                        cc (
                          balanced-Out a b c d gpar par tar cz cy false kx vx ky vy kz vz q x y z
                            k))
                ];
          parent = m.par_x;
          same_head = refl;
          same_par = λ q w n.
              let (x, y, z, k) = far q w in
              Moved-same h (rotate_left_right gpar par tar h).1 a b c d gpar par tar (h.par gpar)
                gpar q m x y z k n;
          same = λ q w n. let (x, y, z, k) = far q w in m.kept q x y z x;
          linked = λ n.
              let (x, y, z, k) = far (h.par gpar) o in
              Relinked-same h (rotate_left_right gpar par tar h).1 (h.par gpar) gpar
                (m.kept (h.par gpar) x y z x);
        },
      )

  near_right-Rotates :
      Is h (right_left a b c d tar par gpar cx cy cz kx vx ky vy kz vz)
      → IsDistinct (right_left a b c d tar par gpar cx cy cz kx vx ky vy kz vz)
      → within (h.par gpar) (right_left a b c d tar par gpar cx cy cz kx vx ky vy kz vz) ≡ false
      → Rotates h (right_left a b c d tar par gpar cx cy cz kx vx ky vy kz vz) tar
  unfolding rotate_right_left
  near_right-Rotates i w o =
      let ps = right_left-Parts a b c d tar par gpar cx cy cz kx vx ky vy kz vz w in
      let far : (q : Ptr)
          → within q (right_left a b c d tar par gpar cx cy cz kx vx ky vy kz vz) ≡ false
          → (q ≢ gpar) × (q ≢ par) × (q ≢ tar) × Out a b c d q =
        λ q o.
          let (ug, oa, os) =
            out a gpar cz kz vz (node (node b tar cx kx vx c) par cy ky vy d) q o in
          let (up, os', od) = out (node b tar cx kx vx c) par cy ky vy d q os in
          let (ut, ob, oc) = out b tar cx kx vx c q os' in (ug, up, ut, (oa, ob, oc, od)) in
      let (is, m) = rl_lem h a b c d gpar par tar cx cy cz kx vx ky vy kz vz i ps in
      let (og, ua, upar, ia, (op, utar, ud, (ot, ub, uc, ib, ic), id)) = i in
      let done =
        picks_right_left h gpar par tar og.not_null op.not_null ot.not_null utar upar
          (λ e. top-ne a par op.not_null ps.oy.0 (sym (og.left) ∙ e))
          (λ e. top-ne d tar ot.not_null ps.ox.3 (sym (op.right) ∙ e)) in
      (
        gpar,
        (rotate_right_left gpar par tar h).1,
        done,
        record {
          turned = balanced a b c d gpar tar par cz false cy kx vx kz vz ky vy;
          holds = is;
          distinct =
              balanced-IsDistinct a b c d gpar tar par cz false cy kx vx kz vz ky vy
                (last_first a b c d tar par gpar ps);
          top = refl;
          not_null = og.not_null;
          same_entries = simp append_assoc;
          inside = λ q w.
              elim (Bool-cases
                (within q (right_left a b c d tar par gpar cx cy cz kx vx ky vy kz vz))) [
                  | inl y ↦ y
                  | inr n ↦
                      let (x, y, z, k) = far q n in
                      absurd (
                        cc (
                          balanced-Out a b c d gpar tar par cz false cy kx vx kz vz ky vy q x z y
                            k))
                ];
          parent = m.par_x;
          same_head = refl;
          same_par = λ q w n.
              let (x, y, z, k) = far q w in
              Moved-same h (rotate_right_left gpar par tar h).1 a b c d gpar tar par (h.par gpar)
                gpar q m x z y k n;
          same = λ q w n. let (x, y, z, k) = far q w in m.kept q x z y x;
          linked = λ n.
              let (x, y, z, k) = far (h.par gpar) o in
              Relinked-same h (rotate_right_left gpar par tar h).1 (h.par gpar) gpar
                (m.kept (h.par gpar) x z y x);
        },
      )

  far_right-Rotates :
      Is h (right_right a b c d tar par gpar cx cy cz kx vx ky vy kz vz)
      → IsDistinct (right_right a b c d tar par gpar cx cy cz kx vx ky vy kz vz)
      → within (h.par gpar) (right_right a b c d tar par gpar cx cy cz kx vx ky vy kz vz) ≡ false
      → Rotates h (right_right a b c d tar par gpar cx cy cz kx vx ky vy kz vz) tar
  unfolding rotate_right_right
  far_right-Rotates i w o =
      let ps = right_right-Parts a b c d tar par gpar cx cy cz kx vx ky vy kz vz w in
      let far : (q : Ptr)
          → within q (right_right a b c d tar par gpar cx cy cz kx vx ky vy kz vz) ≡ false
          → (q ≢ gpar) × (q ≢ par) × (q ≢ tar) × Out a b c d q =
        λ q o.
          let (ug, oa, os) =
            out a gpar cz kz vz (node b par cy ky vy (node c tar cx kx vx d)) q o in
          let (up, ob, os') = out b par cy ky vy (node c tar cx kx vx d) q os in
          let (ut, oc, od) = out c tar cx kx vx d q os' in (ug, up, ut, (oa, ob, oc, od)) in
      let (is, m) = rr_lem h a b c d gpar par tar cx cy cz kx vx ky vy kz vz i ps in
      let (og, ua, upar, ia, (op, ub, utar, ib, (ot, uc, ud, ic, id))) = i in
      let done =
        picks_right_right h gpar par tar og.not_null op.not_null ot.not_null utar upar
          (λ e. top-ne a par op.not_null ps.oy.0 (sym (og.left) ∙ e)) op.right in
      (
        gpar,
        (rotate_right_right gpar par tar h).1,
        done,
        record {
          turned = balanced a b c d gpar tar par false cx true ky vy kz vz kx vx;
          holds = is;
          distinct =
              balanced-IsDistinct a b c d gpar tar par false cx true ky vy kz vz kx vx
                (last_first a b c d tar par gpar ps);
          top = refl;
          not_null = og.not_null;
          same_entries = simp append_assoc;
          inside = λ q w.
              elim (Bool-cases
                (within q (right_right a b c d tar par gpar cx cy cz kx vx ky vy kz vz))) [
                  | inl y ↦ y
                  | inr n ↦
                      let (x, y, z, k) = far q n in
                      absurd (
                        cc (
                          balanced-Out a b c d gpar tar par false cx true ky vy kz vz kx vx q x z y
                            k))
                ];
          parent = m.par_x;
          same_head = refl;
          same_par = λ q w n.
              let (x, y, z, k) = far q w in
              Moved-same h (rotate_right_right gpar par tar h).1 a b c d gpar tar par (h.par gpar)
                gpar q m x z y k n;
          same = λ q w n. let (x, y, z, k) = far q w in m.kept q x z y x;
          linked = λ n.
              let (x, y, z, k) = far (h.par gpar) o in
              Relinked-same h (rotate_right_right gpar par tar h).1 (h.par gpar) gpar
                (m.kept (h.par gpar) x z y x);
        },
      )

  far_left-Rotates :
      Is h (left_left a b c d par tar gpar cx cy cz kx vx ky vy kz vz)
      → IsDistinct (left_left a b c d par tar gpar cx cy cz kx vx ky vy kz vz)
      → within (h.par gpar) (left_left a b c d par tar gpar cx cy cz kx vx ky vy kz vz) ≡ false
      → Rotates h (left_left a b c d par tar gpar cx cy cz kx vx ky vy kz vz) tar
  unfolding rotate_left_left
  far_left-Rotates i w o =
      let ps = left_left-Parts a b c d par tar gpar cx cy cz kx vx ky vy kz vz w in
      let far : (q : Ptr)
          → within q (left_left a b c d par tar gpar cx cy cz kx vx ky vy kz vz) ≡ false
          → (q ≢ gpar) × (q ≢ par) × (q ≢ tar) × Out a b c d q =
        λ q o.
          let (ug, os, od) =
            out (node (node a tar cy ky vy b) par cx kx vx c) gpar cz kz vz d q o in
          let (up, os', oc) = out (node a tar cy ky vy b) par cx kx vx c q os in
          let (ut, oa, ob) = out a tar cy ky vy b q os' in (ug, up, ut, (oa, ob, oc, od)) in
      let (ug, up, ut, oabcd) = far (h.par gpar) o in
      let (is, m) =
        ll_lem h a b c d gpar par tar cx cy cz kx vx ky vy kz vz i ps (oabcd, ug, up, ut) in
      let (og, upar, ud, (op, utar, uc, (ot, ua, ub, ia, ib), ic), id) = i in
      let done =
        picks_left_left h gpar par tar og.not_null op.not_null ot.not_null utar upar og.left
          op.left in
      (
        par,
        (rotate_left_left gpar par tar h).1,
        done,
        record {
          turned = balanced a b c d par tar gpar cx cy cz kx vx ky vy kz vz;
          holds = is;
          distinct = balanced-IsDistinct a b c d par tar gpar cx cy cz kx vx ky vy kz vz (ps);
          top = refl;
          not_null = op.not_null;
          same_entries = simp append_assoc;
          inside = λ q w.
              elim (Bool-cases
                (within q (left_left a b c d par tar gpar cx cy cz kx vx ky vy kz vz))) [
                  | inl y ↦ y
                  | inr n ↦
                      let (x, y, z, k) = far q n in
                      absurd (
                        cc (balanced-Out a b c d par tar gpar cx cy cz kx vx ky vy kz vz q y z x k))
                ];
          parent = m.par_x;
          same_head = ll_head h gpar par tar;
          same_par = λ q w n.
              let (x, y, z, k) = far q w in
              Moved-same h (rotate_left_left gpar par tar h).1 a b c d par tar gpar (h.par gpar)
                (h.par gpar) q m y z x k n;
          same = λ q w n. let (x, y, z, k) = far q w in m.kept q y z x n;
          linked = λ n. ll-Relinked h gpar par tar n ug up;
        },
      )

-- `rotate` on a grandchild of the top of a tree, in each of the four cases, follows no null pointer and
-- leaves a tree with the same entries in the same order, whose top it returns and which hangs where
-- the old one did. The parent of the top, or NULL, may not be in the tree.
pub rotate-Turned :
    (h : Heap) (s : Tree) (tar : Ptr)
    → Bent s tar
    → Is h s
    → IsDistinct s
    → within (h.par (root s)) s ≡ false
    → (next : Ptr) × (g : Heap) × (rotate tar h ≡ some (next, g))
      × Turned h s (h.par (root s)) next g
rotate-Turned h s tar (far_left a b c d x y z cx cy cz kx vx ky vy kz vz) i w o =
    far_left-Rotates h a b c d z x y cx cy cz kx vx ky vy kz vz i w o
rotate-Turned h s tar (near_left a b c d x y z cx cy cz kx vx ky vy kz vz) i w o =
    near_left-Rotates h a b c d z y x cx cy cz kx vx ky vy kz vz i w o
rotate-Turned h s tar (far_right a b c d x y z cx cy cz kx vx ky vy kz vz) i w o =
    far_right-Rotates h a b c d z y x cx cy cz kx vx ky vy kz vz i w o
rotate-Turned h s tar (near_right a b c d x y z cx cy cz kx vx ky vy kz vz) i w o =
    near_right-Rotates h a b c d z y x cx cy cz kx vx ky vy kz vz i w o
