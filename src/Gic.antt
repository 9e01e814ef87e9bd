-- ===== src/Gic.antt =====
-- gic.c: the list register values of virtual interrupts. The fields that the source joins by `|` lie
-- in different bits, so they are added.
pub mod Fields
mod Tests
use t_visor.Prelude.{ℕ, ◌+◌, ◌*◌, ◌/◌, ◌%◌, ◌^◌, Bool, true, false, if◌then◌else◌}

abbrev pub group_bit : Bool → ℕ
group_bit grp1 = if grp1 then 2 ^ 30 else 0

-- `(pri & 0xf8) << 20`, at bit 23.
abbrev pub pri_bits : ℕ → ℕ
pri_bits pri = pri / 8 % 32 * 2 ^ 23

unfoldable pub gic_make_virtual_hardware_interrupt : ℕ → ℕ → ℕ → Bool → ℕ
gic_make_virtual_hardware_interrupt vintvec pintvec pri grp1 =
    0x90000000 + pri_bits pri + pintvec % 512 * 2 ^ 10 + vintvec % 512 + group_bit grp1

unfoldable pub gic_make_virtual_software_interrupt : ℕ → ℕ → Bool → ℕ
gic_make_virtual_software_interrupt vintvec pri grp1 =
    0x10000000 + pri_bits pri + vintvec % 512 + group_bit grp1

unfoldable pub gic_make_virtual_software_sgi : ℕ → ℕ → ℕ → Bool → ℕ
gic_make_virtual_software_sgi vintvec cpu_id pri grp1 =
    0x10000000 + pri_bits pri + vintvec % 512 + group_bit grp1 + cpu_id % 256 * 2 ^ 10

-- `(lr_value & (0xf8 << 20)) >> 20`.
unfoldable pub gic_lr_read_pri : ℕ → ℕ
gic_lr_read_pri lr_value = lr_value / 2 ^ 23 % 32 * 8

unfoldable pub gic_lr_read_vid : ℕ → ℕ
gic_lr_read_vid lr_value = lr_value % 512
