-- ===== src/VirtualGic/Distributor.antt =====
-- The reads of the virtual distributor in virtual_gic.c, virtual_gicd_read_emulate_w, _h and _b. An
-- address is its offset from GICD_BASE_ADDR. `none` is a read beyond the end of an array.
pub mod Bounds
use t_visor.Prelude.{
  ℕ, zero, suc, ◌+◌, ◌-◌, ◌*◌, ◌/◌, ◌%◌, ◌^◌, Bool, true, false, ◌&&◌, Option, none, some, ltb, leb,
  ◌==◌, if◌then◌else◌,
}
use t_visor.Prelude.Words.{bit, set_bit}
use t_visor.VirtualGic.{Delivery, CoreState, virtual_gic_read_lr, gich_lr_num}

-- The part of `vgic_t` that is read. GICD_IIDR is that of the machine.
pub record Distributor : Type 0 where
  pub enable_g0 : Bool
  pub enable_g1 : Bool
  pub gicd_typer : ℕ
  pub gicd_iidr : ℕ
  pub gicd_isenabler : ℕ → ℕ
  pub gicd_ipriorityr : ℕ → ℕ
  pub gicd_itargetsr : ℕ → ℕ
  pub gicd_icfgr : ℕ → ℕ
  -- The fields of these names of each core.
  pub ppi_isenabler : ℕ → ℕ
  pub ppi_ipriorityr : ℕ → ℕ → ℕ
  pub delivery : Delivery
  pub vcpu_num : ℕ
  -- `vcpu_get_executing()->vid`.
  pub executing_vid : ℕ
  pub aborts : ℕ

-- `a | b` on the lowest `n` bits.
unfoldable pub or_bits : ℕ → ℕ → ℕ → ℕ
or_bits zero a b = 0
or_bits (suc n) a b = (if a % 2 + b % 2 == 0 then 0 else 1) + 2 * or_bits n (a / 2) (b / 2)

-- A word of an array of bytes.
abbrev pub word_at : (ℕ → ℕ) → ℕ → ℕ
word_at f k = f (4 * k) + 2 ^ 8 * f (4 * k + 1) + 2 ^ 16 * f (4 * k + 2) + 2 ^ 24 * f (4 * k + 3)

-- `if((lr&(1 << 28)) && (lr&0x1ff)/32==idx) value |= 1 << ((lr&0x1ff)%32)`.
abbrev pub add_pending : ℕ → ℕ → ℕ → ℕ
add_pending idx lr value =
    if bit 28 lr && lr % 512 / 32 == idx then set_bit (lr % 512 % 32) value else value

-- The pending bits of the list registers from `j` on, of which `n` are left.
abbrev pub pending_lrs : ℕ → ℕ → ℕ → (ℕ → ℕ) → ℕ → ℕ
pending_lrs zero j idx lr value = value
pending_lrs (suc n) j idx lr value = pending_lrs n (suc j) idx lr (add_pending idx (lr j) value)

-- The same of the cores from `i` on, with those that wait in memory.
abbrev pub pending_cores : ℕ → ℕ → ℕ → Delivery → ℕ → ℕ
pending_cores zero i idx d value = value
pending_cores (suc n) i idx d value = pending_cores n (suc i) idx d (
    pending_lrs gich_lr_num 0 idx (virtual_gic_read_lr d i)
      (or_bits 32 value ((d.core_state i).irq_no_mask idx)))

-- An element of an array of `n`.
abbrev pub in_array : ℕ → ℕ → ℕ → Option ℕ
in_array n k value = if ltb k n then some value else none

-- The words of GICD_ISPENDER and GICD_ICPENDER from the second one on; `irq_no_mask` has 16.
abbrev pub pending_word : Distributor → ℕ → Option ℕ
pending_word g idx =
    if g.vcpu_num == 0
    then some 0
    else in_array 16 idx (pending_cores g.vcpu_num 0 idx g.delivery 0)

abbrev pub flag_bit : Bool → ℕ
flag_bit true = 1
flag_bit false = 0

-- The word, and whether the address is supported.
pub read_word : Distributor → ℕ → Option ℕ × Bool
read_word g off =
    let id = g.executing_vid in
    if off == 0x000
    then (some (flag_bit g.enable_g0 + 2 * flag_bit g.enable_g1), true)
    else if off == 0x004
    then (some g.gicd_typer, true)
    else if off == 0x008
    then (some g.gicd_iidr, true)
    else if off == 0x100
    then (some (g.ppi_isenabler id), true)
    else if off == 0x180
    then (some (g.ppi_isenabler id), true)
    else if leb 0x104 off && ltb off 0x180
    then (in_array 16 ((off - 0x100) / 4) (g.gicd_isenabler ((off - 0x100) / 4)), true)
    else if leb 0x184 off && ltb off 0x200
    then (in_array 16 ((off - 0x180) / 4) (g.gicd_isenabler ((off - 0x180) / 4)), true)
    else if off == 0x200
    then (
      some (
          pending_lrs gich_lr_num 0 0 g.delivery.gich_lr
            ((g.delivery.core_state id).irq_no_mask 0)),
      true,
    )
    else if leb 0x204 off && leb off 0x240
    then (pending_word g ((off - 0x200) / 4), true)
    else if leb 0x284 off && leb off 0x2c0
    then (pending_word g ((off - 0x280) / 4), true)
    else if leb 0x420 off && leb off 0x600
    then (in_array 128 ((off - 0x400) / 4) (word_at g.gicd_ipriorityr ((off - 0x400) / 4)), true)
    else if leb 0x400 off && ltb off 0x420
    then (some (word_at (g.ppi_ipriorityr id) ((off - 0x400) / 4)), true)
    else if leb 0x800 off && ltb off 0x820
    then (some (2 ^ id % 256 * 0x01010101), true)
    else if leb 0x820 off && ltb off 0xa00
    then (some (word_at g.gicd_itargetsr ((off - 0x800) / 4)), true)
    else if leb 0xc08 off && ltb off 0xc80
    then (some (g.gicd_icfgr ((off - 0xc00) / 4)), true)
    else (some 0, false)

abbrev pub with_abort : Distributor → Option ℕ × Bool → Option (ℕ × Distributor)
with_abort g (none, b) = none
with_abort g (some v, true) = some (v, g)
with_abort g (some v, false) = some (v, record g { aborts = g.aborts + 1 })

pub virtual_gicd_read_emulate_w : Distributor → ℕ → Option (ℕ × Distributor)
virtual_gicd_read_emulate_w g off = with_abort g (read_word g off)

-- `(value >> (8 * (addr&0x3))) & (2^width - 1)` of the word at `addr&~0x3`.
abbrev pub part_of : ℕ → ℕ → Option (ℕ × Distributor) → Option (ℕ × Distributor)
part_of width off none = none
part_of width off (some (value, g)) = some (value / 2 ^ (8 * (off % 4)) % 2 ^ width, g)

pub virtual_gicd_read_emulate_h : Distributor → ℕ → Option (ℕ × Distributor)
unfolding virtual_gicd_read_emulate_w
virtual_gicd_read_emulate_h g off = part_of 16 off (virtual_gicd_read_emulate_w g (off / 4 * 4))

pub virtual_gicd_read_emulate_b : Distributor → ℕ → Option (ℕ × Distributor)
unfolding virtual_gicd_read_emulate_w
virtual_gicd_read_emulate_b g off = part_of 8 off (virtual_gicd_read_emulate_w g (off / 4 * 4))
