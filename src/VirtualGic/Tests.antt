-- ===== src/VirtualGic/Tests.antt =====
-- A VM of virtual_gic.c whose list registers are all in use.
use t_visor.Prelude.{
  ◌≢◌, not, ◌&&◌, ◌||◌, Option, some, [], ℕ, zero, suc, ◌+◌, ◌*◌, ◌<◌, ◌≡◌, refl, true, false, none,
  arith, ◌==◌, if◌then◌else◌,
}
use t_visor.Prelude.Words.{bit}
use t_visor.Gic.{gic_lr_read_vid}
use t_visor.VirtualGic.{
  Delivery, virtual_gic_read_lr, virtual_gic_read_elsr0, find_same, pend, virtual_gic_set_lr,
  most_urgent,
}
use t_visor.VirtualGic.Place.{Placed, virtual_gic_set_lr-Placed}
use t_visor.VirtualGic.Distributor.{Distributor, virtual_gicd_read_emulate_w}
use t_visor.VirtualGic.Distributor.Bounds.{read_enabler-bounds}
use t_visor.VirtualGic.Send.{Vgic}
use t_visor.VirtualGic.Writes.{virtual_gicd_write_emulate_w}
use t_visor.VirtualGic.Writes.RoundTrip.{write_enabler-read}
use t_visor.VirtualGic.Urgent.{BestBelow, most_urgent-BestBelow}

-- The interrupts 100 to 103 stand in the saved list registers, with the priorities 0x20, 0x40, 0x60
-- and 0x80, and the interrupt 1 waits in memory.
abbrev full : Delivery
full = record {
  core_state = λ i. record {
    pending_lr = λ i. 0x14000001;
    saved_lr = λ i. 0x10000064 + i + (i + 1) * 0x02000000;
    saved_elsr0 = 0;
    saved_apr = 0;
    irq_no_mask = λ w. if w == 0 then 2 else 0;
  };
  executing = λ i. false;
  gich_lr = λ i. 0;
  gich_elsr0 = 15;
  gich_apr = 0;
  np_int = false;
}

no_bit : (j : ℕ) → j < 4 → bit j (virtual_gic_read_elsr0 full 0) ≡ false
unfolding bit virtual_gic_read_elsr0
no_bit zero h = refl
no_bit (suc zero) h = refl
no_bit (suc (suc zero)) h = refl
no_bit (suc (suc (suc zero))) h = refl
no_bit (suc (suc (suc (suc j)))) h = absurd (omega arith)

-- The interrupt 104 of priority 0x48.
virtual_gic_set_lr-Placed_example :
    (left : ℕ) × (d' : Delivery) × (virtual_gic_set_lr 0 0x14800068 full
      ≡ (true, pend 0 (gic_lr_read_vid left) left d'))
    × Placed 4 0 0 0x14800068 full left d'
unfolding bit virtual_gic_read_lr virtual_gic_read_elsr0 find_same gic_lr_read_vid
virtual_gic_set_lr-Placed_example = virtual_gic_set_lr-Placed 0 0x14800068 full refl refl no_bit

most_urgent-BestBelow_example :
    BestBelow (full.core_state 0) 512 (most_urgent 512 0 0xff none (full.core_state 0))
most_urgent-BestBelow_example = most_urgent-BestBelow (full.core_state 0)

-- A distributor with the enable word 1 everywhere.
abbrev enabled : Distributor
enabled = record {
  enable_g0 = true;
  enable_g1 = false;
  gicd_typer = 0;
  gicd_iidr = 0;
  gicd_isenabler = λ i. 1;
  gicd_ipriorityr = λ i. 0;
  gicd_itargetsr = λ i. 0;
  gicd_icfgr = λ i. 0;
  ppi_isenabler = λ i. 0;
  ppi_ipriorityr = λ i j. 0;
  delivery = full;
  vcpu_num = 1;
  executing_vid = 0;
  aborts = 0;
}

read_enabler-bounds_example :
    (virtual_gicd_read_emulate_w enabled 0x144 ≡ none)
    × (virtual_gicd_read_emulate_w enabled 0x1c4 ≡ none)
read_enabler-bounds_example = read_enabler-bounds enabled 17 (omega arith) (omega arith)

abbrev vgic : Vgic
vgic = record {
  dist = enabled;
  ptov = λ i. none;
  vtop = λ v. some v;
  use_irq = λ w. 0;
  real_pri = 0;
  gicd_igroupr = λ w. 0;
  asleep = λ v. false;
  last_vid = none;
  machine_icfgr = λ w. 0;
  calls = [];
}

abbrev no_core : Vgic → ℕ → ℕ → Option ℕ
no_core g mask v = none

-- The interrupt 33 is added to the word 1, and taken from it.
write_enabler-read_example :
    (set clear : Vgic) × (after before : ℕ) × (virtual_gicd_write_emulate_w no_core
        (0x100 + 4 * 1)
        2
        vgic
      ≡ some set)
    × (virtual_gicd_read_emulate_w set.dist (0x180 + 4 * 1) ≡ some (after, set.dist))
    × (bit 1 after ≡ (bit 1 1 || bit 1 2))
    × (virtual_gicd_write_emulate_w no_core (0x180 + 4 * 1) 2 vgic ≡ some clear)
    × (virtual_gicd_read_emulate_w clear.dist (0x100 + 4 * 1) ≡ some (before, clear.dist))
    × (bit 1 before ≡ (bit 1 1 && not (bit 1 2)))
    × ((k : ℕ) → k ≢ 1 → (set.dist.gicd_isenabler k ≡ 1) × (clear.dist.gicd_isenabler k ≡ 1))
write_enabler-read_example =
    write_enabler-read no_core 1 2 vgic (omega arith) (omega arith) 1 (omega arith)
