-- ===== src/VirtualGic.antt =====
-- The delivery of virtual interrupts in virtual_gic.c: list registers of the interrupt controller
-- for the VCPU that runs, saved ones for the others, and interrupts that wait in memory for a free
-- one. A word of `irq_no_mask` is read and written by bits.
pub mod Distributor
pub mod Place
pub mod Send
pub mod Writes
pub mod Urgent
mod Tests
use t_visor.Prelude.{
  ℕ, zero, suc, ◌/◌, ◌%◌, ◌^◌, Bool, true, false, not, ◌&&◌, Option, none, some, ltb, leb, ◌==◌,
  if◌then◌else◌,
}
use t_visor.Prelude.Words.{bit, set_bit, clear_bit}
use t_visor.Gic.{gic_lr_read_pri, gic_lr_read_vid}
use t_visor.TimerEvent.{put}

abbrev pub gich_lr_num : ℕ
gich_lr_num = 4

abbrev pub sgi_id_max : ℕ
sgi_id_max = 16

abbrev pub spi_id_max : ℕ
spi_id_max = 512

-- The part of `vgic_core_state_t` that concerns delivery.
pub record CoreState : Type 0 where
  pub pending_lr : ℕ → ℕ
  pub saved_lr : ℕ → ℕ
  pub saved_elsr0 : ℕ
  pub saved_apr : ℕ
  pub irq_no_mask : ℕ → ℕ

-- The delivery for one VM: its cores, which of them runs, the registers GICH_LR, GICH_ELSR0 and
-- GICH_APR, and the bit of GICH_HCR that `gic_set_np_int` sets.
pub record Delivery : Type 0 where
  pub core_state : ℕ → CoreState
  pub executing : ℕ → Bool
  pub gich_lr : ℕ → ℕ
  pub gich_elsr0 : ℕ
  pub gich_apr : ℕ
  pub np_int : Bool

abbrev pub put_core : (ℕ → CoreState) → ℕ → CoreState → ℕ → CoreState
put_core f i c j = if i == j then c else f j

unfoldable pub virtual_gic_read_lr : Delivery → ℕ → ℕ → ℕ
virtual_gic_read_lr d vid tar =
    if d.executing vid then d.gich_lr tar else (d.core_state vid).saved_lr tar

unfoldable pub virtual_gic_read_elsr0 : Delivery → ℕ → ℕ
virtual_gic_read_elsr0 d vid =
    if d.executing vid then d.gich_elsr0 else (d.core_state vid).saved_elsr0

unfoldable pub virtual_gic_read_apr : Delivery → ℕ → ℕ
virtual_gic_read_apr d vid = if d.executing vid then d.gich_apr else (d.core_state vid).saved_apr

unfoldable pub virtual_gic_write_lr : Delivery → ℕ → ℕ → ℕ → Delivery
virtual_gic_write_lr d vid tar lr_value =
    if d.executing vid then record d { gich_lr = put d.gich_lr tar lr_value } else record d {
      core_state = put_core d.core_state vid (record (d.core_state vid) {
        saved_lr = put (d.core_state vid).saved_lr tar lr_value;
        saved_elsr0 = clear_bit tar (d.core_state vid).saved_elsr0;
      });
    }

-- `irq_no_mask[i / 32] & (1 << (i % 32))`.
abbrev pub is_pending : CoreState → ℕ → Bool
is_pending c i = bit (i % 32) (c.irq_no_mask (i / 32))

-- The interrupt waits in memory.
pub pend : ℕ → ℕ → ℕ → Delivery → Delivery
pend vid irq_no lr_value d =
    let c = d.core_state vid in
    record d {
      core_state = put_core d.core_state vid (record c {
        irq_no_mask =
            put c.irq_no_mask (irq_no / 32) (set_bit (irq_no % 32) (c.irq_no_mask (irq_no / 32)));
        pending_lr = put c.pending_lr irq_no lr_value;
      });
      np_int = true;
    }

-- The test for the same interrupt in a list register: SGIs by their whole lower part, which has the
-- sender, the others by number.
abbrev pub same_irq : ℕ → ℕ → Bool
same_irq lr_value prev =
    if leb (gic_lr_read_vid lr_value) sgi_id_max
    then prev % 2 ^ 20 == lr_value % 2 ^ 20
    else gic_lr_read_vid lr_value == gic_lr_read_vid prev

-- The first of the two loops of `virtual_gic_set_lr`: the first list register in use that has the
-- same interrupt.
pub find_same : ℕ → ℕ → ℕ → ℕ → ℕ → Delivery → Option ℕ
find_same zero i is_empty vid lr_value d = none
find_same (suc n) i is_empty vid lr_value d =
    let later = find_same n (suc i) is_empty vid lr_value d in
    if not (bit i is_empty) && same_irq lr_value (virtual_gic_read_lr d vid i)
    then some i
    else later

-- The last loop: the interrupt goes into the first empty list register, and before that it takes the
-- place of each that is less urgent, which is carried on. What is left over comes back.
pub place : ℕ → ℕ → ℕ → ℕ → ℕ → Delivery → Option ℕ × Delivery
place zero i is_empty vid lr_value d = (some lr_value, d)
place (suc n) i is_empty vid lr_value d =
    let prev_lr = virtual_gic_read_lr d vid i in
    let swapped = place n (suc i) is_empty vid prev_lr (virtual_gic_write_lr d vid i lr_value) in
    let kept = place n (suc i) is_empty vid lr_value d in
    if bit i is_empty
    then (none, virtual_gic_write_lr d vid i lr_value)
    else if ltb (gic_lr_read_pri lr_value) (gic_lr_read_pri prev_lr)
    then swapped
    else kept

abbrev pub pend_rest : ℕ → Option ℕ × Delivery → Bool × Delivery
pend_rest vid (none, d) = (true, d)
pend_rest vid (some lr_value, d) = (true, pend vid (gic_lr_read_vid lr_value) lr_value d)

pub virtual_gic_set_lr : ℕ → ℕ → Delivery → Bool × Delivery
virtual_gic_set_lr vid lr_value d =
    let is_empty = virtual_gic_read_elsr0 d vid in
    let is_active = virtual_gic_read_apr d vid in
    let irq_no = gic_lr_read_vid lr_value in
    if is_pending (d.core_state vid) irq_no
    then (false, d)
    else elim (find_same gich_lr_num 0 is_empty vid lr_value d) [
      | some i ↦ if bit i is_active then (true, pend vid irq_no lr_value d) else (false, d)
      | none ↦ pend_rest vid (place gich_lr_num 0 is_empty vid lr_value d)
    ]

-- The loop of `virtual_gic_maintenance` from `i`, with the rounds left: the target so far, and its
-- priority.
pub most_urgent : ℕ → ℕ → ℕ → Option ℕ → CoreState → Option ℕ
most_urgent zero i max_pri tar c = tar
most_urgent (suc n) i max_pri tar c =
    let pri = gic_lr_read_pri (c.pending_lr i) in
    let taken = most_urgent n (suc i) pri (some i) c in
    let passed = most_urgent n (suc i) max_pri tar c in
    let tied : Bool = elim tar [ none ↦ false | some t ↦ bit 29 (c.pending_lr t) ] in
    if not (is_pending c i)
    then passed
    else if ltb pri max_pri
    then taken
    else if pri == max_pri && tied
    then taken
    else passed

-- The branch of `virtual_gic_maintenance` for the interrupt "no pending" of GICH_MISR: the most
-- urgent interrupt that waits in memory is delivered, and if none waits the maintenance interrupt
-- is turned off.
pub refill : ℕ → Delivery → Delivery
refill id d =
    let c = d.core_state id in
    elim (most_urgent spi_id_max 0 0xff none c) [
      | none ↦ record d { np_int = false }
      | some tar ↦
          (virtual_gic_set_lr id (c.pending_lr tar) (record d {
            core_state = put_core d.core_state id (record c {
              irq_no_mask =
                  put c.irq_no_mask (tar / 32) (clear_bit (tar % 32) (c.irq_no_mask (tar / 32)));
            });
          })).1
    ]

pub virtual_gic_maintenance : ℕ → ℕ → Delivery → Delivery
virtual_gic_maintenance misr id d = if bit 0 misr then d else if bit 3 misr then refill id d else d
