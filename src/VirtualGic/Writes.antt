-- ===== src/VirtualGic/Writes.antt =====
-- The writes of the virtual distributor in virtual_gic.c, virtual_gicd_write_emulate_w, _h and _b.
-- An address is its offset from GICD_BASE_ADDR, and an access is aligned to its size. `none` is a
-- write or a read beyond an array.
pub mod RoundTrip
use mathlib.Core.Option
use t_visor.Prelude.{
  ℕ, zero, suc, ◌+◌, ◌-◌, ◌*◌, ◌/◌, ◌%◌, ◌^◌, Bool, true, false, not, ◌&&◌, ◌||◌, Option, none,
  some, ltb, leb, ◌==◌, if◌then◌else◌,
}
use t_visor.Prelude.Words.{bit, set_bit, clear_bit}
use t_visor.TimerEvent.{put}
use t_visor.VirtualGic.{sgi_id_max, spi_id_max}
use t_visor.VirtualGic.Distributor.{Distributor, or_bits}
use t_visor.VirtualGic.Send.{
  HwCall, enable_int, disable_int, set_icfgr, Vgic, call, abort, irq_bit, enabled,
  virtual_gic_send_software_int_inner,
}

-- `a & ~b` on the lowest `n` bits.
pub clear_bits : ℕ → ℕ → ℕ → ℕ
clear_bits zero a b = 0
clear_bits (suc n) a b = (if b % 2 == 0 then a % 2 else 0) + 2 * clear_bits n (a / 2) (b / 2)

abbrev pub set_dist : Vgic → Distributor → Vgic
set_dist g d = record g { dist = d }

abbrev pub set_use : Vgic → (ℕ → ℕ) → Vgic
set_use g f = record g { use_irq = f }

abbrev pub mark_used : ℕ → Vgic → Vgic
mark_used p g = set_use g (put g.use_irq (p / 32) (set_bit (p % 32) (g.use_irq (p / 32))))

-- One round of the loop over the bits of a write to GICD_ISENABLER, for the virtual interrupt `v`. The
-- priority is an UB.
pub enable_one : (ℕ → ℕ) → ℕ → Vgic → Vgic
enable_one pri v g = elim (g.vtop v) [
  | none ↦ g
  | some p ↦
      let t = mark_used p g in
      if enabled g then call (enable_int p ((pri v + g.real_pri) % 2 ^ 8)) t else t
]

-- The loop from bit `j`, with `n` bits left; the word's first interrupt is `base`.
pub enable_all : ℕ → ℕ → (ℕ → ℕ) → ℕ → ℕ → Vgic → Vgic
unfolding enable_one
enable_all zero j pri base value g = g
enable_all (suc n) j pri base value g =
    enable_all n (suc j) pri base value (if bit j value then enable_one pri (base + j) g else g)

-- The loop of a write to the first word of GICD_ICENABLER, which marks the interrupts as used.
pub use_all : ℕ → ℕ → ℕ → Vgic → Vgic
use_all zero j value g = g
use_all (suc n) j value g =
    use_all n (suc j) value
      (if bit j value then elim (g.vtop j) [ none ↦ g | some p ↦ mark_used p g ] else g)

pub disable_one : ℕ → Vgic → Vgic
disable_one v g = elim (g.vtop v) [
  | none ↦ g
  | some p ↦
      let t = set_use g (put g.use_irq (p / 32) (clear_bit (p % 32) (g.use_irq (p / 32)))) in
      if enabled g then call (disable_int p) t else t
]

-- The loop of a write to another word of GICD_ICENABLER.
pub disable_all : ℕ → ℕ → ℕ → ℕ → Vgic → Vgic
unfolding disable_one
disable_all zero j base value g = g
disable_all (suc n) j base value g =
    disable_all n (suc j) base value (if bit j value then disable_one (base + j) g else g)

-- A write to a word of GICD_ISENABLER behind the first one, and to one of GICD_ICENABLER.
pub set_shared : ℕ → ℕ → Vgic → Vgic
unfolding enable_all
set_shared i value g =
    let d = g.dist in
    enable_all 32 0 d.gicd_ipriorityr (i * 32) value (
      set_dist g (record d {
        gicd_isenabler = put d.gicd_isenabler i (or_bits 32 (d.gicd_isenabler i) value);
      }))

pub clear_shared : ℕ → ℕ → Vgic → Vgic
unfolding disable_all clear_bits
clear_shared i value g =
    let d = g.dist in
    disable_all 32 0 (i * 32) value (
      set_dist g (record d {
        gicd_isenabler = put d.gicd_isenabler i (clear_bits 32 (d.gicd_isenabler i) value);
      }))

pub write_isenabler : ℕ → ℕ → Vgic → Option Vgic
write_isenabler i value g =
    if leb 16 i
    then none
    else (let d = g.dist in
        if i == 0
        then (let id = d.executing_vid in
            some (
              enable_all 32 0 (d.ppi_ipriorityr id) 0 value (
                set_dist g (record d {
                  ppi_isenabler = put d.ppi_isenabler id (or_bits 32 (d.ppi_isenabler id) value);
                }))))
        else some (set_shared i value g))

pub write_icenabler : ℕ → ℕ → Vgic → Option Vgic
write_icenabler i value g =
    if leb 16 i
    then none
    else (let d = g.dist in
        if i == 0
        then (let id = d.executing_vid in
            some (
              use_all 32 0 value (
                set_dist g (record d {
                  ppi_isenabler = put d.ppi_isenabler id (clear_bits 32 (d.ppi_isenabler id) value);
                }))))
        else some (clear_shared i value g))

-- `n` bytes of `value` into an array of bytes, from the index `k` on.
abbrev pub put_bytes : ℕ → (ℕ → ℕ) → ℕ → ℕ → ℕ → ℕ
put_bytes zero f k value = f
put_bytes (suc n) f k value = put_bytes n (put f k (value % 256)) (suc k) (value / 256)

pub write_ppi_priority : ℕ → ℕ → ℕ → Vgic → Vgic
write_ppi_priority n k value g =
    let d = g.dist in
    let id = d.executing_vid in
    set_dist g (record d {
      ppi_ipriorityr =
          λ v. if id == v then put_bytes n (d.ppi_ipriorityr id) k value else d.ppi_ipriorityr v;
    })

pub write_priority : ℕ → ℕ → ℕ → Vgic → Vgic
write_priority n k value g =
    set_dist g (record (g.dist) { gicd_ipriorityr = put_bytes n g.dist.gicd_ipriorityr k value })

pub write_targets : ℕ → ℕ → ℕ → Vgic → Vgic
write_targets n k value g =
    set_dist g (record (g.dist) { gicd_itargetsr = put_bytes n g.dist.gicd_itargetsr k value })

-- The loops of a write to GICD_CTRL over the interrupts from `i` on, with `n` left.
pub enable_used : ℕ → ℕ → Vgic → Vgic
enable_used zero i g = g
enable_used (suc n) i g = enable_used n (suc i) (
    if irq_bit g.use_irq i
    then call (enable_int i ((g.dist.gicd_ipriorityr i + g.real_pri) % 2 ^ 8)) g
    else g)

pub disable_used : ℕ → ℕ → Vgic → Vgic
disable_used zero i g = g
disable_used (suc n) i g =
    disable_used n (suc i) (if irq_bit g.use_irq i then call (disable_int i) g else g)

pub write_ctrl : ℕ → Vgic → Vgic
unfolding enable_used disable_used
write_ctrl value g =
    let t = set_dist g (record (g.dist) { enable_g0 = bit 0 value; enable_g1 = bit 1 value }) in
    if value == 0 then disable_used 496 sgi_id_max t else enable_used 496 sgi_id_max t

-- One round of the loop of a byte write to GICD_ICFGR: the interrupt `v`, the bit of whose trigger
-- is `level`. Interrupt 0 of the machine is passed over, as `none` is.
pub configure_one : ℕ → Bool → Vgic → Vgic
configure_one v edge g = elim (g.vtop v) [
  | none ↦ g
  | some id ↦
      if id == 0
      then g
      else (let old = g.machine_icfgr (id / 16) in
          let place = id % 16 * 2 + 1 in
          let val = if edge then set_bit place old else clear_bit place old in
          call (set_icfgr (id / 16) val)
            (record g { machine_icfgr = put g.machine_icfgr (id / 16) val }))
]

-- `value | 0x55` into the byte `i` of the array of words, and its four interrupts.
pub write_icfgr_byte : ℕ → ℕ → Vgic → Vgic
unfolding configure_one
write_icfgr_byte i value g =
    let d = g.dist in
    let word = d.gicd_icfgr (i / 4) in
    let low = 2 ^ (8 * (i % 4)) in
    let byte = or_bits 8 (value % 256) 0x55 in
    let t = set_dist g (record d {
      gicd_icfgr =
          put d.gicd_icfgr (i / 4) (word / (low * 256) * (low * 256) + byte * low + word % low);
    }) in
    configure_one (i * 4 + 3) (bit 7 value) (
      configure_one (i * 4 + 2) (bit 5 value)
        (configure_one (i * 4 + 1) (bit 3 value) (configure_one (i * 4) (bit 1 value) t)))

-- `n` bytes of `value` into GICD_ICFGR.
pub write_icfgr : ℕ → ℕ → ℕ → Vgic → Vgic
unfolding write_icfgr_byte
write_icfgr zero i value g = g
write_icfgr (suc n) i value g =
    write_icfgr n (suc i) (value / 256) (write_icfgr_byte i (value % 256) g)

abbrev pub within : ℕ → ℕ → ℕ → Bool
within lo hi off = leb lo off && ltb off hi

module _ (balance : Vgic → ℕ → ℕ → Option ℕ) where
  -- GICD_SGIR: the list of targets, all but the caller, or the caller.
  pub write_sgir : ℕ → Vgic → Option Vgic
  write_sgir value g =
      let tlf = value / 2 ^ 24 % 4 in
      let ctl = value / 2 ^ 16 % 256 in
      let id = value % 16 in
      let vid = g.dist.executing_vid in
      let send = λ (mask : ℕ).
        Option.map (λ r. r.1) (virtual_gic_send_software_int_inner balance mask id g) in
      if tlf == 0
      then send ctl
      else if tlf == 1
      then send ((2 ^ g.dist.vcpu_num + 2 ^ 32 - 1 - 2 ^ vid) % 2 ^ 32)
      else if tlf == 2
      then send (2 ^ vid)
      else some g

  pub virtual_gicd_write_emulate_w : ℕ → ℕ → Vgic → Option Vgic
  virtual_gicd_write_emulate_w off value g =
      if off == 0x000
      then some (write_ctrl value g)
      else if off == 0x100
      then write_isenabler 0 value g
      else if within 0x104 0x180 off
      then write_isenabler ((off - 0x100) / 4) value g
      else if off == 0x180
      then write_icenabler 0 value g
      else if within 0x184 0x200 off
      then write_icenabler ((off - 0x180) / 4) value g
      else if within 0x400 0x420 off
      then some (write_ppi_priority 4 ((off - 0x400) / 4 * 4) value g)
      else if within 0x420 0x600 off
      then some (write_priority 4 ((off - 0x400) / 4 * 4) value g)
      else if within 0xc08 0xc80 off
      then some (write_icfgr 4 (off - 0xc00) value g)
      else if within 0x820 0xa00 off
      then some (write_targets 4 ((off - 0x800) / 4 * 4) value g)
      else if off == 0xf00
      then write_sgir value g
      else some (abort g)

  -- A write of a part of a word of enable bits is a write of the word with the other bits 0.
  abbrev pub write_part : ℕ → ℕ → Vgic → Option Vgic
  write_part off value g =
      virtual_gicd_write_emulate_w (off / 4 * 4) (value * 2 ^ (8 * (off % 4)) % 2 ^ 32) g

  pub virtual_gicd_write_emulate_h : ℕ → ℕ → Vgic → Option Vgic
  unfolding virtual_gicd_write_emulate_w
  virtual_gicd_write_emulate_h off value g =
      if off == 0x000
      then some (write_ctrl value g)
      else if within 0x100 0x200 off
      then write_part off value g
      else if within 0x400 0x420 off
      then some (write_ppi_priority 2 ((off - 0x400) / 2 * 2) value g)
      else if within 0x420 0x800 off
      then (if leb 0x600 off then none else some (write_priority 2 ((off - 0x400) / 2 * 2) value g))
      else if within 0x080 0x100 off
      then some (abort g)
      else if within 0xc08 0xc80 off
      then some (write_icfgr 2 (off - 0xc00) value g)
      else if within 0x820 0xa00 off
      then some (write_targets 2 ((off - 0x800) / 2 * 2) value g)
      else some (abort g)

  pub virtual_gicd_write_emulate_b : ℕ → ℕ → Vgic → Option Vgic
  unfolding virtual_gicd_write_emulate_w
  virtual_gicd_write_emulate_b off value g =
      if off == 0x000
      then some (write_ctrl value g)
      else if within 0x100 0x200 off
      then write_part off value g
      else if within 0x400 0x420 off
      then some (write_ppi_priority 1 (off - 0x400) value g)
      else if within 0x420 0x800 off
      then (if leb 0x600 off then none else some (write_priority 1 (off - 0x400) value g))
      else if within 0xf20 0xf30 off
      then Option.map (λ r. r.1) (virtual_gic_send_software_int_inner balance value (off - 0xf20) g)
      else if within 0x080 0x100 off
      then some (abort g)
      else if within 0xc08 0xc80 off
      then some (write_icfgr_byte (off - 0xc00) value g)
      else if within 0x820 0xa00 off
      then some (write_targets 1 (off - 0x800) value g)
      else some (abort g)
