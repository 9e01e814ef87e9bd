-- ===== src/HypReg.antt =====
-- The registers of a trapped guest in hyp_call.c: `hyp_reg_read` and `hyp_reg_write`, and
-- in Memory `hyp_memory_passthrough`. A register that the guest's mode banks is read
-- and written by an instruction; the others lie in the saved frame `sp`.
pub mod Rules
pub mod Memory
pub mod Coproc
pub mod WriteBack
mod Tests
use t_visor.Prelude.{ℕ, ◌+◌, ◌%◌, Bool, true, false, leb, ◌==◌, if◌then◌else◌}
use t_visor.TimerEvent.{put}

-- The modes PSM_* of include/cpsr.h; `other` stands for every other value of the mode field.
pub data Mode : Type 0 where
  usr fiq irq svc abt und sys other : Mode

-- `spsr & 0x1f`.
pub mode_of : ℕ → Mode
mode_of spsr =
    let m = spsr % 32 in
    if m == 0x10
    then Mode.usr
    else if m == 0x11
    then Mode.fiq
    else if m == 0x12
    then Mode.irq
    else if m == 0x13
    then Mode.svc
    else if m == 0x17
    then Mode.abt
    else if m == 0x1b
    then Mode.und
    else if m == 0x1f
    then Mode.sys
    else Mode.other

pub record GuestRegs : Type 0 where
  -- `vcpu_stack_t.reg`: r0 to r12, and in entry 13 the link register of the user mode.
  pub sp : ℕ → ℕ
  pub spsr : ℕ
  -- r8_fiq to r12_fiq, by their numbers.
  pub fiq_banked : ℕ → ℕ
  -- lr_fiq, lr_irq, lr_svc, lr_abt and lr_und, and the stack pointers of the modes.
  pub lr_banked : Mode → ℕ
  pub sp_banked : Mode → ℕ
  pub elr_hyp : ℕ
  -- Calls of `tv_abort`.
  pub aborts : ℕ

abbrev pub mode_eq : Mode → Mode → Bool
mode_eq Mode.usr Mode.usr = true
mode_eq Mode.fiq Mode.fiq = true
mode_eq Mode.irq Mode.irq = true
mode_eq Mode.svc Mode.svc = true
mode_eq Mode.abt Mode.abt = true
mode_eq Mode.und Mode.und = true
mode_eq Mode.sys Mode.sys = true
mode_eq Mode.other Mode.other = true
mode_eq _ _ = false

abbrev pub put_bank : (Mode → ℕ) → Mode → ℕ → Mode → ℕ
put_bank f m v k = if mode_eq m k then v else f k

-- r14 of a mode.
abbrev pub write_lr : Mode → ℕ → GuestRegs → GuestRegs
write_lr Mode.usr v g = record g { sp = put g.sp 13 v }
write_lr Mode.sys v g = record g { sp = put g.sp 13 v }
write_lr Mode.other v g = record g { aborts = g.aborts + 1 }
write_lr m v g = record g { lr_banked = put_bank g.lr_banked m v }

-- r13 of a mode; the system mode has that of the user mode.
abbrev pub write_sp : Mode → ℕ → GuestRegs → GuestRegs
write_sp Mode.sys v g = record g { sp_banked = put_bank g.sp_banked Mode.usr v }
write_sp Mode.other v g = record g { aborts = g.aborts + 1 }
write_sp m v g = record g { sp_banked = put_bank g.sp_banked m v }

-- In the FIQ mode the instruction that writes r8 to r12 has `value` for an output operand, so it
-- writes what stands in the register that the compiler chose: `leftover`.
unfoldable pub write_in : Mode → (leftover : ℕ) → ℕ → ℕ → GuestRegs → GuestRegs
write_in m leftover reg_id value g =
    if leb reg_id 7
    then record g { sp = put g.sp reg_id value }
    else if leb reg_id 12
    then (if mode_eq m Mode.fiq
        then record g { fiq_banked = put g.fiq_banked reg_id leftover }
        else record g { sp = put g.sp reg_id value })
    else if reg_id == 14
    then write_lr m value g
    else if reg_id == 13
    then write_sp m value g
    else if reg_id == 15
    then record g { elr_hyp = value }
    else record g { aborts = g.aborts + 1 }

unfoldable pub hyp_reg_write : (leftover : ℕ) → ℕ → ℕ → GuestRegs → GuestRegs
hyp_reg_write leftover reg_id value g = write_in (mode_of g.spsr) leftover reg_id value g

abbrev pub read_lr : Mode → GuestRegs → ℕ
read_lr Mode.usr g = g.sp 13
read_lr Mode.sys g = g.sp 13
read_lr Mode.other g = 0
read_lr m g = g.lr_banked m

abbrev pub read_sp : Mode → GuestRegs → ℕ
read_sp Mode.sys g = g.sp_banked Mode.usr
read_sp Mode.other g = 0
read_sp m g = g.sp_banked m

-- The value of `hyp_reg_read`. A register or mode that it does not know reads as 0, with a message
-- that is left out here.
unfoldable pub read_in : Mode → ℕ → GuestRegs → ℕ
read_in m reg_id g =
    if leb reg_id 7
    then g.sp reg_id
    else if leb reg_id 12
    then (if mode_eq m Mode.fiq then g.fiq_banked reg_id else g.sp reg_id)
    else if reg_id == 14
    then read_lr m g
    else if reg_id == 13
    then read_sp m g
    else if reg_id == 15
    then g.elr_hyp
    else 0

unfoldable pub hyp_reg_read : ℕ → GuestRegs → ℕ
hyp_reg_read reg_id g = read_in (mode_of g.spsr) reg_id g
