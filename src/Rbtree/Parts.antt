-- ===== src/Rbtree/Parts.antt =====
-- The addresses of three nodes and of the four trees below them, which a rotation of rbtree.c moves.
use t_visor.Prelude.{
  ℕ, ◌≡◌, ◌≢◌, refl, sym, Bool, true, false, inl, inr, arith, ◌==◌, ==_of_ne, Bool-cases,
}
use t_visor.Rbtree.{Ptr}
use t_visor.Rbtree.Shape.{Tree, node, within, Apart, IsDistinct}

pub Apart-sym : (s t : Tree) → Apart s t → Apart t s
Apart-sym s t a q w = elim (Bool-cases (within q s)) [ inl y ↦ absurd (cc (a q y)) | inr n ↦ n ]

pub Apart-ne :
    (s t : Tree) → Apart s t → (p q : Ptr) → within p s ≡ true → within q t ≡ true → p ≢ q
Apart-ne s t a p q x y e = cc (a p x)

module _ (l : Tree) (p : Ptr) (c : Bool) (k v : ℕ) (r : Tree) where
  abbrev t : Tree
  t = node l p c k v r

  pub out : (q : Ptr) → within q t ≡ false → (q ≢ p) × (within q l ≡ false) × (within q r ≡ false)
  out q o = (λ e. ground arith, ground arith, ground arith)

  pub out_all : (q : Ptr) → q ≢ p → within q l ≡ false → within q r ≡ false → within q t ≡ false
  out_all q n a b = rw (==_of_ne q p n, a, b) refl

  -- What a tree is apart from, its parts are.
  pub Apart-parts : (s : Tree) → Apart t s → (within p s ≡ false) × Apart l s × Apart r s
  Apart-parts s a =
      (a p (ground arith), λ q w. a q (rw w (ground arith)), λ q w. a q (rw w (ground arith)))

  pub Apart-all : (s : Tree) → within p s ≡ false → Apart l s → Apart r s → Apart t s
  Apart-all s o a b q w = elim (Bool-cases (q == p)) [
    | inl e ↦ ground arith
    | inr n ↦ elim (Bool-cases (within q l)) [ inl x ↦ a q x | inr x ↦ b q (rw (n, x) at w) ]
  ]

module _ (a b c d : Tree) where
  -- The node `q` is in none of the four.
  abbrev pub Out : Ptr → Type 0
  Out q = (within q a ≡ false) × (within q b ≡ false) × (within q c ≡ false) × (within q d ≡ false)

  pub record Four : Type 0 where
    pub ab : Apart a b
    pub ac : Apart a c
    pub ad : Apart a d
    pub bc : Apart b c
    pub bd : Apart b d
    pub cd : Apart c d
    pub da : IsDistinct a
    pub db : IsDistinct b
    pub dc : IsDistinct c
    pub dd : IsDistinct d

  pub record Parts (x y z : Ptr) : Type 0 where
    pub xy : x ≢ y
    pub xz : x ≢ z
    pub yz : y ≢ z
    pub ox : Out x
    pub oy : Out y
    pub oz : Out z
    pub four : Four

  pub swap_ends : (x y z : Ptr) → Parts x y z → Parts z y x
  swap_ends x y z o = record {
    xy = λ e. o.yz (sym e);
    xz = λ e. o.xz (sym e);
    yz = λ e. o.xy (sym e);
    ox = o.oz;
    oy = o.oy;
    oz = o.ox;
    four = o.four;
  }

  pub last_first : (x y z : Ptr) → Parts x y z → Parts z x y
  last_first x y z o = record {
    xy = λ e. o.xz (sym e);
    xz = λ e. o.yz (sym e);
    yz = o.xy;
    ox = o.oz;
    oy = o.ox;
    oz = o.oy;
    four = o.four;
  }

  module _ (x y z : Ptr) (cx cy cz : Bool) (kx vx ky vy kz vz : ℕ) where
    -- The four shapes before a rotation. In the first one `y` is the lowest of the three nodes, in the
    -- others `x`.
    abbrev pub left_left : Tree
    left_left = node (node (node a y cy ky vy b) x cx kx vx c) z cz kz vz d

    abbrev pub left_right : Tree
    left_right = node (node a y cy ky vy (node b x cx kx vx c)) z cz kz vz d

    abbrev pub right_right : Tree
    right_right = node a z cz kz vz (node b y cy ky vy (node c x cx kx vx d))

    abbrev pub right_left : Tree
    right_left = node a z cz kz vz (node (node b x cx kx vx c) y cy ky vy d)

    -- The shape after it.
    abbrev pub balanced : Tree
    balanced = node (node a y cy ky vy b) x cx kx vx (node c z cz kz vz d)

    pub left_left-Parts : IsDistinct left_left → Parts x y z
    left_left-Parts (zl, zd, ld, (xl, xc, lc, (ya, yb, ab, da, db), dc), dd) =
        let ys = node a y cy ky vy b in
        let (zx, zy0, zc) = out ys x cx kx vx c z zl in
        let (zy, za, zb) = out a y cy ky vy b z zy0 in
        let (xy, xa, xb) = out a y cy ky vy b x xl in
        let (xd, ysd, cd) = Apart-parts ys x cx kx vx c d ld in
        let (yd, ad, bd) = Apart-parts a y cy ky vy b d ysd in
        let (yc, ac, bc) = Apart-parts a y cy ky vy b c lc in
        record {
          xy = xy;
          xz = λ e. zx (sym e);
          yz = λ e. zy (sym e);
          ox = (xa, xb, xc, xd);
          oy = (ya, yb, yc, yd);
          oz = (za, zb, zc, zd);
          four = record {
            ab = ab;
            ac = ac;
            ad = ad;
            bc = bc;
            bd = bd;
            cd = cd;
            da = da;
            db = db;
            dc = dc;
            dd = dd;
          };
        }

    pub left_right-Parts : IsDistinct left_right → Parts x y z
    left_right-Parts (zl, zd, ld, (ya, yl, al, da, (xb, xc, bc, db, dc)), dd) =
        let xs = node b x cx kx vx c in
        let (zy, za, zx0) = out a y cy ky vy xs z zl in
        let (zx, zb, zc) = out b x cx kx vx c z zx0 in
        let (yx, yb, yc) = out b x cx kx vx c y yl in
        let (yd, ad, xsd) = Apart-parts a y cy ky vy xs d ld in
        let (xd, bd, cd) = Apart-parts b x cx kx vx c d xsd in
        let (xa, ba, ca) = Apart-parts b x cx kx vx c a (Apart-sym a xs al) in
        record {
          xy = λ e. yx (sym e);
          xz = λ e. zx (sym e);
          yz = λ e. zy (sym e);
          ox = (xa, xb, xc, xd);
          oy = (ya, yb, yc, yd);
          oz = (za, zb, zc, zd);
          four = record {
            ab = Apart-sym b a ba;
            ac = Apart-sym c a ca;
            ad = ad;
            bc = bc;
            bd = bd;
            cd = cd;
            da = da;
            db = db;
            dc = dc;
            dd = dd;
          };
        }

    pub right_right-Parts : IsDistinct right_right → Parts x y z
    right_right-Parts (za, zr, ar, da, (yb, yr, br, db, (xc, xd, cd, dc, dd))) =
        let xs = node c x cx kx vx d in
        let (zy, zb, zx0) = out b y cy ky vy xs z zr in
        let (zx, zc, zd) = out c x cx kx vx d z zx0 in
        let (yx, yc, yd) = out c x cx kx vx d y yr in
        let ys = node b y cy ky vy xs in
        let (ya, ba, xsa) = Apart-parts b y cy ky vy xs a (Apart-sym a ys ar) in
        let (xa, ca, da') = Apart-parts c x cx kx vx d a xsa in
        let (xb, cb, db') = Apart-parts c x cx kx vx d b (Apart-sym b xs br) in
        record {
          xy = λ e. yx (sym e);
          xz = λ e. zx (sym e);
          yz = λ e. zy (sym e);
          ox = (xa, xb, xc, xd);
          oy = (ya, yb, yc, yd);
          oz = (za, zb, zc, zd);
          four = record {
            ab = Apart-sym b a ba;
            ac = Apart-sym c a ca;
            ad = Apart-sym d a da';
            bc = Apart-sym c b cb;
            bd = Apart-sym d b db';
            cd = cd;
            da = da;
            db = db;
            dc = dc;
            dd = dd;
          };
        }

    pub right_left-Parts : IsDistinct right_left → Parts x y z
    right_left-Parts (za, zr, ar, da, (yl, yd, ld, (xb, xc, bc, db, dc), dd)) =
        let xs = node b x cx kx vx c in
        let (zy, zx0, zd) = out xs y cy ky vy d z zr in
        let (zx, zb, zc) = out b x cx kx vx c z zx0 in
        let (yx, yb, yc) = out b x cx kx vx c y yl in
        let ys = node xs y cy ky vy d in
        let (ya, xsa, da') = Apart-parts xs y cy ky vy d a (Apart-sym a ys ar) in
        let (xa, ba, ca) = Apart-parts b x cx kx vx c a xsa in
        let (xd, bd, cd) = Apart-parts b x cx kx vx c d ld in
        record {
          xy = λ e. yx (sym e);
          xz = λ e. zx (sym e);
          yz = λ e. zy (sym e);
          ox = (xa, xb, xc, xd);
          oy = (ya, yb, yc, yd);
          oz = (za, zb, zc, zd);
          four = record {
            ab = Apart-sym b a ba;
            ac = Apart-sym c a ca;
            ad = Apart-sym d a da';
            bc = bc;
            bd = bd;
            cd = cd;
            da = da;
            db = db;
            dc = dc;
            dd = dd;
          };
        }

    pub balanced-IsDistinct : Parts x y z → IsDistinct balanced
    balanced-IsDistinct o =
        let (xa, xb, xc, xd) = o.ox in
        let (ya, yb, yc, yd) = o.oy in
        let (za, zb, zc, zd) = o.oz in
        let zs = node c z cz kz vz d in
        let a_zs : Apart a zs =
          Apart-sym zs a
            (Apart-all c z cz kz vz d a za (Apart-sym a c o.four.ac) (Apart-sym a d o.four.ad)) in
        let b_zs : Apart b zs =
          Apart-sym zs b
            (Apart-all c z cz kz vz d b zb (Apart-sym b c o.four.bc) (Apart-sym b d o.four.bd)) in
        (
          out_all a y cy ky vy b x o.xy xa xb,
          out_all c z cz kz vz d x o.xz xc xd,
          Apart-all a y cy ky vy b zs (out_all c z cz kz vz d y o.yz yc yd) a_zs b_zs,
          (ya, yb, o.four.ab, o.four.da, o.four.db),
          (zc, zd, o.four.cd, o.four.dc, o.four.dd),
        )
