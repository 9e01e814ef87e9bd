-- ===== src/Vcpu/Context.antt =====
-- The registers of `struct t_vcpu` in include/vcpu.h that are copied between a VCPU and the machine.
use t_visor.Prelude.{ℕ, ◌-◌, ◌^◌}
use t_visor.TimerEvent.{put}

pub record Context : Type 0 where
  pub pc : ℕ
  pub cpsr : ℕ
  pub reg : ℕ → ℕ
  pub spsr : ℕ → ℕ
  pub sp : ℕ → ℕ
  pub lr : ℕ → ℕ
  pub fiq_banked : ℕ → ℕ
  pub actlr : ℕ
  pub sctlr : ℕ
  pub cpacr : ℕ
  pub csselr : ℕ
  pub dacr : ℕ
  pub dfsr : ℕ
  pub ifsr : ℕ
  pub adfsr : ℕ
  pub aifsr : ℕ
  pub dfar : ℕ
  pub ifar : ℕ
  pub prrr : ℕ
  pub nmrr : ℕ
  pub cidr : ℕ
  pub tpidrprw : ℕ
  pub tpidruro : ℕ
  pub tpidrurw : ℕ
  pub ttbcr : ℕ
  pub ttbr0 : ℕ
  pub ttbr1 : ℕ
  pub par_lo : ℕ
  pub par_hi : ℕ
  pub vbar : ℕ
  pub mpid : ℕ
  pub mair0 : ℕ
  pub mair1 : ℕ
  pub vtctl : ℕ
  pub vtcmp : ℕ
  pub fpexc : ℕ
  pub fpscr : ℕ
  pub vfpr : ℕ → ℕ

-- `CPSR_DEFAULT`, which is `PSM_SVC`, and `SCTLR_DEFALT`.
abbrev cpsr_default : ℕ
cpsr_default = 0x13

abbrev sctlr_default : ℕ
sctlr_default = 0x00c50050

-- What vcpu_reset writes into the registers of a VCPU.
unfoldable pub reset_context : Context → Context
reset_context c = record c {
  cpsr = cpsr_default;
  ttbcr = 0;
  sctlr = sctlr_default;
  vtctl = 2;
  vtcmp = 2 ^ 64 - 1;
  vbar = 0;
}

-- `vcpu->reg[0] = cid; vcpu->pc = address;`
unfoldable pub boot : (address cid : ℕ) → Context → Context
boot address cid c = record c { reg = put c.reg 0 cid; pc = address }
