-- ===== src/HypReg/WriteBack.antt =====
-- The write-back of a trapped load or store in hyp_call.c: `decode_imm_shift` and `check_write_back`.
use t_visor.Prelude.{ℕ, ◌+◌, ◌-◌, ◌*◌, ◌/◌, ◌%◌, ◌^◌, Bool, ltb, ◌==◌, ◌||◌, not, if◌then◌else◌}
use t_visor.Prelude.Words.{bit}
use t_visor.HypReg.{GuestRegs, hyp_reg_write, hyp_reg_read}

-- `*val >> n` of a signed word; a shift by 32, which C leaves open, leaves the sign.
abbrev pub shift_signed : ℕ → ℕ → ℕ
shift_signed v n = if ltb v (2 ^ 31) then v / 2 ^ n else 2 ^ 32 - 1 - (2 ^ 32 - 1 - v) / 2 ^ n

-- `carry` is the bit 29 of the VCPU's `cpsr`.
pub decode_imm_shift : Bool → ℕ → ℕ → ℕ → ℕ
decode_imm_shift carry type imm5 reg =
    if type == 0
    then reg * 2 ^ imm5 % 2 ^ 32
    else if type == 1
    then (if imm5 == 0 then 0 else reg / 2 ^ imm5)
    else if type == 2
    then (if imm5 == 0 then shift_signed reg 32 else shift_signed reg imm5)
    else if type == 3
    then (if imm5 == 0
        then reg / 2 + (if carry then 2 ^ 31 else 0)
        else reg % 2 ^ imm5 * 2 ^ (32 - imm5) + reg / 2 ^ imm5)
    else reg

abbrev pub aborted : GuestRegs → GuestRegs
aborted g = record g { aborts = g.aborts + 1 }

-- `regn_id`, which the source takes from the bits 12 to 15.
abbrev pub regn_of : ℕ → ℕ
regn_of inst = inst / 2 ^ 12 % 16

-- The value that is added to or taken from the register.
pub offset_of : Bool → ℕ → GuestRegs → ℕ
unfolding decode_imm_shift
offset_of carry inst g =
    if bit 25 inst
    then decode_imm_shift carry (inst / 2 ^ 5 % 4) (inst / 2 ^ 7 % 32) (hyp_reg_read (inst % 16) g)
    else inst % 2 ^ 12

pub check_write_back : (leftover : ℕ) → Bool → ℕ → GuestRegs → GuestRegs
check_write_back leftover carry inst g =
    if not (bit 25 inst || bit 26 inst || bit 27 inst)
    then aborted g
    else if bit 21 inst
    then (let t = aborted g in
        let n = hyp_reg_read (regn_of inst) t in
        let m = offset_of carry inst t in
        hyp_reg_write leftover (regn_of inst)
          (if bit 23 inst then (n + m) % 2 ^ 32 else (n + 2 ^ 32 - m) % 2 ^ 32) t)
    else g

-- The base register of a load or store, in the bits 16 to 19 of the instruction.
abbrev pub base_of : ℕ → ℕ
base_of inst = inst / 2 ^ 16 % 16
