-- ===== src/HypReg/Tests.antt =====
-- A guest of hyp_call.c in the supervisor and in the FIQ mode.
use t_visor.Prelude.{ℕ, ◌≡◌, refl, inl, inr, [], arith}
use t_visor.Prelude.Words.{bit}
use t_visor.HypReg.{mode_of, GuestRegs, hyp_reg_write, hyp_reg_read}
use t_visor.HypReg.Rules.{Writable, hyp_reg_read-hyp_reg_write}
use t_visor.HypReg.Coproc.{
  Cp15, coproc_cp15_emulate, coproc_mair1_write_lost, coproc_cp15_emulate_direction,
}
use t_visor.HypReg.Memory.{Io}

abbrev guest : ℕ → GuestRegs
guest spsr = record {
  sp = λ r. r;
  spsr = spsr;
  fiq_banked = λ r. 0;
  lr_banked = λ m. 0;
  sp_banked = λ m. 0;
  elr_hyp = 0;
  aborts = 0;
}

svc-Writable : Writable 14 (guest 0x13)
unfolding mode_of
svc-Writable = record {
  in_range = omega arith;
  known = ground arith;
  not_fiq = inr (inl (omega arith));
}

hyp_reg_read-hyp_reg_write_example : hyp_reg_read 14 (hyp_reg_write 0 14 7 (guest 0x13)) ≡ 7
hyp_reg_read-hyp_reg_write_example = hyp_reg_read-hyp_reg_write 0 14 7 (guest 0x13) svc-Writable

-- A device that holds 0x81.
abbrev device : Io
device = record { load = λ z addr. 0x81; stores = [] }

-- The syndrome of a byte load into r14, with its sign.
abbrev iss : ℕ
iss = 0x2e0000

-- The MAIR registers.
abbrev cp15 : Cp15
cp15 = record { actlr = 0; l2ctlr = 0; mair0 = 1; mair1 = 2; machine_mair0 = 3 }

-- Accesses to MAIR1 with r5, with bit 0 set, and to MAIR1 and MAIR0 with r14, with bit 0 clear.
coproc_mair1_write_lost_example :
    let after = coproc_cp15_emulate 0 0x228a5 (guest 0x13, cp15) in
    (hyp_reg_read 14 (coproc_cp15_emulate 0 0x229c4 after).0 ≡ 2)
    × (hyp_reg_read 14 (coproc_cp15_emulate 0 0x29c4 after).0 ≡ hyp_reg_read 5 (guest 0x13))
    × (after.1.machine_mair0 ≡ 2)
unfolding bit
coproc_mair1_write_lost_example =
    coproc_mair1_write_lost 0 0x228a5 0x229c4 0x29c4 (guest 0x13) cp15 refl refl refl refl refl refl
      svc-Writable svc-Writable

-- An MCR from r14 to MAIR0, and an MRC of MAIR1 into r5.
coproc_cp15_emulate_direction_example :
    ((coproc_cp15_emulate 0 0x29c4 (guest 0x13, cp15)).1 ≡ cp15)
    × (hyp_reg_read 14 (coproc_cp15_emulate 0 0x29c4 (guest 0x13, cp15)).0 ≡ 1)
    × ((coproc_cp15_emulate 0 0x228a5 (guest 0x13, cp15)).0 ≡ guest 0x13)
unfolding bit
coproc_cp15_emulate_direction_example =
    coproc_cp15_emulate_direction 0 0x29c4 0x228a5 (guest 0x13) cp15 refl refl svc-Writable
