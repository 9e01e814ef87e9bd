-- ===== src/Rbtree/Fields.antt =====
-- The fields of the three nodes after a rotation of rbtree.c.
use t_visor.Prelude.{ℕ, ◌≢◌, Bool, true, false, arith}
use t_visor.Rbtree.{
  Ptr, Heap, rotate_left_left, rotate_left_right, rotate_right_right, rotate_right_left,
}
use t_visor.Rbtree.Shape.{Holds}

module _ (h : Heap) (gpar par tar : Ptr) (gp : gpar ≢ par) (gt : gpar ≢ tar) (pt : par ≢ tar)
    (a b c d : Ptr) (cx cy cz : Bool) (kx vx ky vy kz vz : ℕ) where
  pub lr-Holds :
      Holds h par gpar cz kz vz d
      → Holds h a par cy ky vy tar
      → Holds h b tar cx kx vx c
      → Holds (rotate_left_right gpar par tar h).1 par gpar cz kx vx tar
        × Holds (rotate_left_right gpar par tar h).1 a par cy ky vy b
        × Holds (rotate_left_right gpar par tar h).1 c tar false kz vz d
  unfolding rotate_left_right
  lr-Holds o p t = (ground arith, ground arith, ground arith)

  pub rl-Holds :
      Holds h a gpar cz kz vz par
      → Holds h tar par cy ky vy d
      → Holds h b tar cx kx vx c
      → Holds (rotate_right_left gpar par tar h).1 tar gpar cz kx vx par
        × Holds (rotate_right_left gpar par tar h).1 a tar false kz vz b
        × Holds (rotate_right_left gpar par tar h).1 c par cy ky vy d
  unfolding rotate_right_left
  rl-Holds o p t = (ground arith, ground arith, ground arith)

  pub rr-Holds :
      Holds h a gpar cz kz vz par
      → Holds h b par cy ky vy tar
      → Holds h c tar cx kx vx d
      → Holds (rotate_right_right gpar par tar h).1 tar gpar false ky vy par
        × Holds (rotate_right_right gpar par tar h).1 a tar cx kz vz b
        × Holds (rotate_right_right gpar par tar h).1 c par true kx vx d
  unfolding rotate_right_right
  rr-Holds o p t = (ground arith, ground arith, ground arith)

  pub ll-Holds :
      h.par gpar ≢ gpar
      → h.par gpar ≢ par
      → h.par gpar ≢ tar
      → Holds h par gpar cz kz vz d
      → Holds h tar par cx kx vx c
      → Holds h a tar cy ky vy b
      → Holds (rotate_left_left gpar par tar h).1 tar par cx kx vx gpar
        × Holds (rotate_left_left gpar par tar h).1 a tar cy ky vy b
        × Holds (rotate_left_left gpar par tar h).1 c gpar cz kz vz d
  unfolding rotate_left_left
  ll-Holds ug up ut o p t = (ground arith, ground arith, ground arith)
