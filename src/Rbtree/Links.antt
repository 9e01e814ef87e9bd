-- ===== src/Rbtree/Links.antt =====
-- The links that the rotations of rbtree.c leave, at the level of the pointers.
use t_visor.Prelude.{◌≡◌, ◌≢◌, arith, ◌==◌, if◌then◌else◌}
use t_visor.Rbtree.{
  Ptr, null, Heap, rotate_left_left, rotate_left_right, rotate_right_right, rotate_right_left,
}
use t_visor.Rbtree.Shape.{SameAt}

module _ (h g : Heap) (a b c d x y z up ex : Ptr) where
  -- `x` is the top of `y`, with `a` and `b` below, and of `z`, with `c` and `d` below. `g` differs from
  -- `h` in the links to these and in the nodes `x`, `y` and `z` only, and in the links down from `ex`.
  pub record Moved : Type 0 where
    pub kept : (q : Ptr) → q ≢ x → q ≢ y → q ≢ z → q ≢ ex → SameAt h g q
    pub par_a : a ≢ null → g.par a ≡ y
    pub par_b : b ≢ null → g.par b ≡ y
    pub par_c : c ≢ null → g.par c ≡ z
    pub par_d : d ≢ null → g.par d ≡ z
    pub par_x : g.par x ≡ up
    pub par_y : g.par y ≡ x
    pub par_z : g.par z ≡ x
    pub par_kept :
        (q : Ptr)
        → q ≢ null
        → q ≢ x
        → q ≢ y
        → q ≢ z
        → q ≢ a
        → q ≢ b
        → q ≢ c
        → q ≢ d
        → g.par q ≡ h.par q

-- `a` is none of the others.
abbrev pub Alone : (a b c d x y z : Ptr) → Type 0
Alone a b c d x y z = (a ≢ x) × (a ≢ y) × (a ≢ z) × (a ≢ b) × (a ≢ c) × (a ≢ d)

module _ (h : Heap) (a b c d x y z : Ptr) where
  -- The three nodes are different, and so are the tops of the trees below.
  pub record Tops : Type 0 where
    pub xy : x ≢ y
    pub xz : x ≢ z
    pub yz : y ≢ z
    pub top_a : a ≢ null → Alone a b c d x y z
    pub top_b : b ≢ null → Alone b a c d x y z
    pub top_c : c ≢ null → Alone c a b d x y z
    pub top_d : d ≢ null → Alone d a b c x y z

module _ (h : Heap) (gpar par tar : Ptr) (gp : gpar ≢ par) (gt : gpar ≢ tar) (pt : par ≢ tar) where
  lr_par :
      (q : Ptr)
      → q ≢ null
      → (rotate_left_right gpar par tar h).1.par q ≡ (
          if tar == q
          then gpar
          else if h.right gpar == q
          then tar
          else if h.left tar == q
          then par
          else h.par q)
  unfolding rotate_left_right
  lr_par q n = ground arith

  lr_kept :
      (q : Ptr) → q ≢ gpar → q ≢ par → q ≢ tar → SameAt h (rotate_left_right gpar par tar h).1 q
  unfolding rotate_left_right
  lr_kept q x y z = ground arith

  module _ (a b c d : Ptr) (o : Tops h a b c d gpar par tar) where
    pub lr-Moved :
        gpar ≢ null
        → par ≢ null
        → tar ≢ null
        → h.right gpar ≡ d
        → h.left tar ≡ b
        → h.par par ≡ gpar
        → (a ≢ null → h.par a ≡ par)
        → (c ≢ null → h.par c ≡ tar)
        → Moved h (rotate_left_right gpar par tar h).1 a b c d gpar par tar (h.par gpar) gpar
    lr-Moved ng np nt e0 e1 e2 e3 e4 = record {
      kept = λ q x y z u. lr_kept q x y z;
      par_a = λ n. ground (arith, lr_par a n, o.top_a n, e3 n);
      par_b = λ n. ground (arith, lr_par b n, o.top_b n);
      par_c = λ n. ground (arith, lr_par c n, o.top_c n, e4 n);
      par_d = λ n. ground (arith, lr_par d n, o.top_d n);
      par_x = ground (arith, lr_par gpar ng, o.top_a, o.top_b, o.top_c, o.top_d);
      par_y = ground (arith, lr_par par np, o.top_a, o.top_b, o.top_c, o.top_d);
      par_z = ground (arith, lr_par tar nt, o.top_a, o.top_b, o.top_c, o.top_d);
      par_kept = λ q n x y z na nb nc nd. ground (arith, lr_par q n);
    }

module _ (h : Heap) (gpar par tar : Ptr) (gp : gpar ≢ par) (gt : gpar ≢ tar) (pt : par ≢ tar) where
  rl_par :
      (q : Ptr)
      → q ≢ null
      → (rotate_right_left gpar par tar h).1.par q ≡ (
          if tar == q
          then gpar
          else if h.left gpar == q
          then tar
          else if h.right tar == q
          then par
          else h.par q)
  unfolding rotate_right_left
  rl_par q n = ground arith

  rl_kept :
      (q : Ptr) → q ≢ gpar → q ≢ par → q ≢ tar → SameAt h (rotate_right_left gpar par tar h).1 q
  unfolding rotate_right_left
  rl_kept q x y z = ground arith

  module _ (a b c d : Ptr) (o : Tops h a b c d gpar tar par) where
    pub rl-Moved :
        gpar ≢ null
        → par ≢ null
        → tar ≢ null
        → h.left gpar ≡ a
        → h.right tar ≡ c
        → h.par par ≡ gpar
        → (b ≢ null → h.par b ≡ tar)
        → (d ≢ null → h.par d ≡ par)
        → Moved h (rotate_right_left gpar par tar h).1 a b c d gpar tar par (h.par gpar) gpar
    rl-Moved ng np nt e0 e1 e2 e3 e4 = record {
      kept = λ q x y z u. rl_kept q x z y;
      par_a = λ n. ground (arith, rl_par a n, o.top_a n);
      par_b = λ n. ground (arith, rl_par b n, o.top_b n, e3 n);
      par_c = λ n. ground (arith, rl_par c n, o.top_c n);
      par_d = λ n. ground (arith, rl_par d n, o.top_d n, e4 n);
      par_x = ground (arith, rl_par gpar ng, o.top_a, o.top_b, o.top_c, o.top_d);
      par_y = ground (arith, rl_par tar nt, o.top_a, o.top_b, o.top_c, o.top_d);
      par_z = ground (arith, rl_par par np, o.top_a, o.top_b, o.top_c, o.top_d);
      par_kept = λ q n x y z na nb nc nd. ground (arith, rl_par q n);
    }

module _ (h : Heap) (gpar par tar : Ptr) (gp : gpar ≢ par) (gt : gpar ≢ tar) (pt : par ≢ tar) where
  rr_par :
      (q : Ptr)
      → q ≢ null
      → (rotate_right_right gpar par tar h).1.par q ≡ (
          if tar == q
          then gpar
          else if h.left gpar == q
          then tar
          else if h.left tar == q
          then par
          else if h.left par == q
          then tar
          else if h.right tar == q
          then par
          else h.par q)
  unfolding rotate_right_right
  rr_par q n = ground arith

  rr_kept :
      (q : Ptr) → q ≢ gpar → q ≢ par → q ≢ tar → SameAt h (rotate_right_right gpar par tar h).1 q
  unfolding rotate_right_right
  rr_kept q x y z = ground arith

  module _ (a b c d : Ptr) (o : Tops h a b c d gpar tar par) where
    pub rr-Moved :
        gpar ≢ null
        → par ≢ null
        → tar ≢ null
        → h.left gpar ≡ a
        → h.left par ≡ b
        → h.left tar ≡ c
        → h.right tar ≡ d
        → h.par par ≡ gpar
        → Moved h (rotate_right_right gpar par tar h).1 a b c d gpar tar par (h.par gpar) gpar
    rr-Moved ng np nt e0 e1 e2 e3 e4 = record {
      kept = λ q x y z u. rr_kept q x z y;
      par_a = λ n. ground (arith, rr_par a n, o.top_a n);
      par_b = λ n. ground (arith, rr_par b n, o.top_b n);
      par_c = λ n. ground (arith, rr_par c n, o.top_c n);
      par_d = λ n. ground (arith, rr_par d n, o.top_d n);
      par_x = ground (arith, rr_par gpar ng, o.top_a, o.top_b, o.top_c, o.top_d);
      par_y = ground (arith, rr_par tar nt, o.top_a, o.top_b, o.top_c, o.top_d);
      par_z = ground (arith, rr_par par np, o.top_a, o.top_b, o.top_c, o.top_d);
      par_kept = λ q n x y z na nb nc nd. ground (arith, rr_par q n);
    }

module _ (h : Heap) (gpar par tar : Ptr) (gp : gpar ≢ par) (gt : gpar ≢ tar) (pt : par ≢ tar) where
  ll_par :
      (q : Ptr)
      → q ≢ null
      → h.par gpar ≢ gpar
      → h.par gpar ≢ par
      → (rotate_left_left gpar par tar h).1.par q ≡ (
          if h.right par == q
          then gpar
          else if gpar == q
          then par
          else if par == q
          then h.par gpar
          else h.par q)
  unfolding rotate_left_left
  ll_par q n ug uq = ground arith

  ll_kept :
      (q : Ptr)
      → q ≢ gpar
      → q ≢ par
      → q ≢ tar
      → q ≢ h.par gpar
      → SameAt h (rotate_left_left gpar par tar h).1 q
  unfolding rotate_left_left
  ll_kept q x y z u = ground arith

  module _ (a b c d : Ptr) (o : Tops h a b c d par tar gpar) where
    pub ll-Moved :
        gpar ≢ null
        → par ≢ null
        → tar ≢ null
        → h.par gpar ≢ gpar
        → h.par gpar ≢ par
        → h.right par ≡ c
        → h.par tar ≡ par
        → (a ≢ null → h.par a ≡ tar)
        → (b ≢ null → h.par b ≡ tar)
        → (d ≢ null → h.par d ≡ gpar)
        → Moved h (rotate_left_left gpar par tar h).1 a b c d par tar gpar (h.par gpar) (h.par gpar)
    ll-Moved ng np nt ug uq e0 e1 e2 e3 e4 = record {
      kept = λ q x y z u. ll_kept q z x y u;
      par_a = λ n. ground (arith, ll_par a n ug uq, o.top_a n, e2 n);
      par_b = λ n. ground (arith, ll_par b n ug uq, o.top_b n, e3 n);
      par_c = λ n. ground (arith, ll_par c n ug uq, o.top_c n);
      par_d = λ n. ground (arith, ll_par d n ug uq, o.top_d n, e4 n);
      par_x = ground (arith, ll_par par np ug uq, o.top_a, o.top_b, o.top_c, o.top_d);
      par_y = ground (arith, ll_par tar nt ug uq, o.top_a, o.top_b, o.top_c, o.top_d);
      par_z = ground (arith, ll_par gpar ng ug uq, o.top_a, o.top_b, o.top_c, o.top_d);
      par_kept = λ q n x y z na nb nc nd. ground (arith, ll_par q n ug uq);
    }
