-- ===== src/HypReg/Rules.antt =====
-- Writing a register of a guest in hyp_call.c and reading the registers after it.
use t_visor.Prelude.{ℕ, ◌≤◌, ◌≡◌, ◌≢◌, refl, ◌⊎◌, arith}
use t_visor.HypReg.{Mode, mode_of, GuestRegs, hyp_reg_write, hyp_reg_read, write_in, read_in}

-- The register is one of the sixteen, the mode is known, and it is not one of r8 to r12 in the FIQ
-- mode.
pub record Writable (r : ℕ) (g : GuestRegs) : Type 0 where
  pub in_range : r ≤ 15
  pub known : mode_of g.spsr ≢ Mode.other
  pub not_fiq : (r ≤ 7) ⊎ ((13 ≤ r) ⊎ (mode_of g.spsr ≢ Mode.fiq))

module _ (k r v : ℕ) (g : GuestRegs) where
  spsr-write_in : (m : Mode) → (write_in m k r v g).spsr ≡ g.spsr
  unfolding write_in
  spsr-write_in Mode.usr = ground arith
  spsr-write_in _ = ground arith

  spsr-hyp_reg_write : (hyp_reg_write k r v g).spsr ≡ g.spsr
  unfolding hyp_reg_write
  spsr-hyp_reg_write = spsr-write_in (mode_of g.spsr)

  read_in-write_in :
      (m : Mode)
      → r ≤ 15
      → m ≢ Mode.other
      → (r ≤ 7) ⊎ ((13 ≤ r) ⊎ (m ≢ Mode.fiq))
      → read_in m r (write_in m k r v g) ≡ v
  unfolding write_in read_in
  read_in-write_in Mode.usr a b c = ground arith
  read_in-write_in Mode.other a b c = absurd (b refl)
  read_in-write_in _ a b c = ground arith

  -- What is written to a register of a known mode is read back, but for r8 to r12 in the FIQ mode.
  pub hyp_reg_read-hyp_reg_write : Writable r g → hyp_reg_read r (hyp_reg_write k r v g) ≡ v
  unfolding hyp_reg_read hyp_reg_write
  hyp_reg_read-hyp_reg_write w =
      simp (spsr-write_in (mode_of g.spsr))
        (read_in-write_in (mode_of g.spsr) w.in_range w.known w.not_fiq)

  others_in :
      (m : Mode) (j : ℕ)
      → r ≤ 15
      → j ≤ 15
      → j ≢ r
      → read_in m j (write_in m k r v g) ≡ read_in m j g
  unfolding write_in read_in
  others_in Mode.usr j a b c = ground arith
  others_in _ j a b c = ground arith

  -- Every other register keeps its value, in every mode.
  pub hyp_reg_read-hyp_reg_write_ne :
      (j : ℕ) → r ≤ 15 → j ≤ 15 → j ≢ r → hyp_reg_read j (hyp_reg_write k r v g) ≡ hyp_reg_read j g
  unfolding hyp_reg_read hyp_reg_write
  hyp_reg_read-hyp_reg_write_ne j a b c =
      simp (spsr-write_in (mode_of g.spsr)) (others_in (mode_of g.spsr) j a b c)
