-- ===== src/HypReg/Coproc.antt =====
-- `coproc_cp15_emulate` of coproc.c: the trapped accesses to the system coprocessor.
use t_visor.Prelude.{
  ℕ, ◌/◌, ◌%◌, ◌^◌, ◌≡◌, refl, Bool, true, false, arith, ◌==◌, ◌&&◌, if◌then◌else◌, Bool-cases, inl,
  inr,
}
use t_visor.Prelude.Words.{bit}
use t_visor.HypReg.{GuestRegs, hyp_reg_write, hyp_reg_read}
use t_visor.HypReg.Rules.{Writable, hyp_reg_read-hyp_reg_write}

-- The fields of the VCPU and of its VM that are read and written, and the machine's MAIR0.
pub record Cp15 : Type 0 where
  pub actlr : ℕ
  pub l2ctlr : ℕ
  pub mair0 : ℕ
  pub mair1 : ℕ
  pub machine_mair0 : ℕ

-- The syndrome names this register: `crn`, `crm`, `opc1` and `opc2`.
abbrev pub is_register : ℕ → ℕ → ℕ → ℕ → ℕ → Bool
is_register crn crm opc1 opc2 iss =
    iss / 2 ^ 10 % 16 == crn
    && iss / 2 % 16 == crm
    && iss / 2 ^ 14 % 8 == opc1
    && iss / 2 ^ 17 % 8 == opc2

abbrev pub rt_of : ℕ → ℕ
rt_of iss = iss / 2 ^ 5 % 16

-- The bit 0 of the syndrome is the direction of the access: 0 for a write of the guest (MCR), and 1 for a
-- read (MRC). The source takes 1 for a write. The branch for L2ECTLR has the
-- condition of the one for L2CTLR and is never reached.
pub coproc_cp15_emulate : (leftover : ℕ) → ℕ → GuestRegs × Cp15 → GuestRegs × Cp15
coproc_cp15_emulate leftover iss (g, c) =
    let is_write = bit 0 iss in
    let rt = rt_of iss in
    let give : ℕ → GuestRegs × Cp15 = λ v. (hyp_reg_write leftover rt v g, c) in
    let value = hyp_reg_read rt g in
    if is_register 1 0 0 1 iss
    then (if is_write then (g, c) else give c.actlr)
    else if is_register 9 0 1 2 iss
    then (if is_write then (g, c) else give c.l2ctlr)
    else if is_register 9 0 1 2 iss
    then (if is_write then (g, c) else give 0)
    else if is_register 10 2 0 0 iss
    then (if is_write then (g, record c { mair0 = value; machine_mair0 = value }) else give c.mair0)
    else if is_register 10 2 0 1 iss
    then (if is_write
        then (g, record c { mair0 = value; machine_mair0 = c.mair1 })
        else give c.mair1)
    else (g, c)

mair0_only :
    (iss : ℕ)
    → is_register 10 2 0 0 iss ≡ true
    → (is_register 1 0 0 1 iss ≡ false) × (is_register 9 0 1 2 iss ≡ false)
mair0_only iss h = (ground arith, ground arith)

mair1_only :
    (iss : ℕ)
    → is_register 10 2 0 1 iss ≡ true
    → (is_register 1 0 0 1 iss ≡ false)
      × (is_register 9 0 1 2 iss ≡ false)
      × (is_register 10 2 0 0 iss ≡ false)
mair1_only iss h = (ground arith, ground arith, ground arith)

-- A write and then a read of MAIR0, from and into registers that can be written, gives the value back.
pub coproc_mair0_round_trip :
    (k w r : ℕ) (g : GuestRegs) (c : Cp15)
    → bit 0 w ≡ true
    → bit 0 r ≡ false
    → is_register 10 2 0 0 w ≡ true
    → is_register 10 2 0 0 r ≡ true
    → Writable (rt_of r) g
    → let (g', c') = coproc_cp15_emulate k r (coproc_cp15_emulate k w (g, c)) in
      (hyp_reg_read (rt_of r) g' ≡ hyp_reg_read (rt_of w) g)
      × (c'.mair0 ≡ hyp_reg_read (rt_of w) g)
      × (c'.machine_mair0 ≡ c'.mair0)
unfolding coproc_cp15_emulate
coproc_mair0_round_trip k w r g c a b d e f =
    let (x0, x1) = mair0_only w d in
    let (y0, y1) = mair0_only r e in
    rw (x0, x1, a, d)
      (rw (y0, y1, b, e)
        (hyp_reg_read-hyp_reg_write k (rt_of r) (hyp_reg_read (rt_of w) g) g f, refl, refl))

-- Where bit 0 of the syndrome, which `coproc_cp15_emulate` takes for the mark of a write, is 1: an
-- access to MAIR1 stores the register in the VCPU's MAIR0, and the machine's MAIR0 takes the old
-- MAIR1. Behind it, an access to MAIR1 with that bit 0, into a register that can be written, still
-- gives the old MAIR1, and one to MAIR0 gives what was stored.
pub coproc_mair1_write_lost :
    (k w r r0 : ℕ) (g : GuestRegs) (c : Cp15)
    → bit 0 w ≡ true
    → bit 0 r ≡ false
    → bit 0 r0 ≡ false
    → is_register 10 2 0 1 w ≡ true
    → is_register 10 2 0 1 r ≡ true
    → is_register 10 2 0 0 r0 ≡ true
    → Writable (rt_of r) g
    → Writable (rt_of r0) g
    → let after = coproc_cp15_emulate k w (g, c) in
      (hyp_reg_read (rt_of r) (coproc_cp15_emulate k r after).0 ≡ c.mair1)
      × (hyp_reg_read (rt_of r0) (coproc_cp15_emulate k r0 after).0 ≡ hyp_reg_read (rt_of w) g)
      × (after.1.machine_mair0 ≡ c.mair1)
unfolding coproc_cp15_emulate
coproc_mair1_write_lost k w r r0 g c a b b0 d e e0 f f0 =
    let (x0, x1, x2) = mair1_only w d in
    let (y0, y1, y2) = mair1_only r e in
    let (z0, z1) = mair0_only r0 e0 in
    rw (x0, x1, x2, a, d)
      (rw (y0, y1, y2, b, e)
        (rw (z0, z1, b0, e0)
          (
            hyp_reg_read-hyp_reg_write k (rt_of r) c.mair1 g f,
            hyp_reg_read-hyp_reg_write k (rt_of r0) (hyp_reg_read (rt_of w) g) g f0,
            refl,
          )))

-- The value of the register that the syndrome names, where it is one of the four that the source
-- emulates, and `other` where it is not.
abbrev pub emulated : ℕ → Cp15 → (other : ℕ) → ℕ
emulated iss c other =
    if is_register 1 0 0 1 iss
    then c.actlr
    else if is_register 9 0 1 2 iss
    then c.l2ctlr
    else if is_register 10 2 0 0 iss
    then c.mair0
    else if is_register 10 2 0 1 iss
    then c.mair1
    else other

mcr_keeps :
    (k w : ℕ) (g : GuestRegs) (c : Cp15)
    → bit 0 w ≡ false
    → Writable (rt_of w) g
    → ((coproc_cp15_emulate k w (g, c)).1 ≡ c)
      × (hyp_reg_read (rt_of w) (coproc_cp15_emulate k w (g, c)).0
          ≡ emulated w c (hyp_reg_read (rt_of w) g))
unfolding coproc_cp15_emulate
mcr_keeps k w g c a f =
    let given : (v : ℕ) → hyp_reg_read (rt_of w) (hyp_reg_write k (rt_of w) v g) ≡ v =
      λ v. hyp_reg_read-hyp_reg_write k (rt_of w) v g f in
    elim (Bool-cases (is_register 1 0 0 1 w)) [
      | inl x ↦ rw (x, a) (refl, given c.actlr)
      | inr x ↦ elim (Bool-cases (is_register 9 0 1 2 w)) [
        | inl y ↦ rw (x, y, a) (refl, given c.l2ctlr)
        | inr y ↦ elim (Bool-cases (is_register 10 2 0 0 w)) [
          | inl z ↦ rw (x, y, z, a) (refl, given c.mair0)
          | inr z ↦ elim (Bool-cases (is_register 10 2 0 1 w)) [
            | inl t ↦ rw (x, y, z, t, a) (refl, given c.mair1)
            | inr t ↦ rw (x, y, z, t) (refl, refl)
          ]
        ]
      ]
    ]

mrc_keeps :
    (k r : ℕ) (g : GuestRegs) (c : Cp15) → bit 0 r ≡ true → (coproc_cp15_emulate k r (g, c)).0 ≡ g
unfolding coproc_cp15_emulate
mrc_keeps k r g c b = elim (Bool-cases (is_register 1 0 0 1 r)) [
  | inl x ↦ rw (x, b) refl
  | inr x ↦ elim (Bool-cases (is_register 9 0 1 2 r)) [
    | inl y ↦ rw (x, y, b) refl
    | inr y ↦ elim (Bool-cases (is_register 10 2 0 0 r)) [
      | inl z ↦ rw (x, y, z, b) refl
      | inr z ↦ elim (Bool-cases (is_register 10 2 0 1 r)) [
        | inl t ↦ rw (x, y, z, t, b) refl
        | inr t ↦ rw (x, y, z, t) refl
      ]
    ]
  ]
]

-- The direction of an access is taken the wrong way round. A guest's write (bit 0 of the syndrome is
-- 0) changes no emulated register, and the register that it wrote from, if that can be written, takes
-- the value of ACTLR, L2CTLR, MAIR0 or MAIR1, whichever was named, and keeps its own if it was another.
-- A guest's read (bit 0 is 1) leaves all registers of the guest as they are.
pub coproc_cp15_emulate_direction :
    (k w r : ℕ) (g : GuestRegs) (c : Cp15)
    → bit 0 w ≡ false
    → bit 0 r ≡ true
    → Writable (rt_of w) g
    → ((coproc_cp15_emulate k w (g, c)).1 ≡ c)
      × (hyp_reg_read (rt_of w) (coproc_cp15_emulate k w (g, c)).0
          ≡ emulated w c (hyp_reg_read (rt_of w) g))
      × ((coproc_cp15_emulate k r (g, c)).0 ≡ g)
coproc_cp15_emulate_direction k w r g c a b f =
    let (kept, given) = mcr_keeps k w g c a f in (kept, given, mrc_keeps k r g c b)
