-- ===== src/Gic/Fields.antt =====
-- What gic.c packs into a list register value is read back.
use t_visor.Prelude.{ℕ, ◌*◌, ◌/◌, ◌^◌, ◌<◌, ◌≡◌, Bool, true, false, arith}
use t_visor.Gic.{
  gic_make_virtual_hardware_interrupt, gic_make_virtual_software_interrupt,
  gic_make_virtual_software_sgi, gic_lr_read_pri, gic_lr_read_vid,
}

-- The three kinds of values give back the virtual number and the upper five bits of the priority,
-- and are words of 32 bits.
pub gic_lr_read-gic_make :
    (vintvec pintvec cpu_id pri : ℕ) (grp1 : Bool)
    → vintvec < 512
    → pri < 256
    → let hard = gic_make_virtual_hardware_interrupt vintvec pintvec pri grp1 in
      let soft = gic_make_virtual_software_interrupt vintvec pri grp1 in
      let sgi = gic_make_virtual_software_sgi vintvec cpu_id pri grp1 in
      (gic_lr_read_vid hard ≡ vintvec)
      × (gic_lr_read_vid soft ≡ vintvec)
      × (gic_lr_read_vid sgi ≡ vintvec)
      × (gic_lr_read_pri hard ≡ pri / 8 * 8)
      × (gic_lr_read_pri soft ≡ pri / 8 * 8)
      × (gic_lr_read_pri sgi ≡ pri / 8 * 8)
      × (hard < 2 ^ 32)
      × (soft < 2 ^ 32)
      × (sgi < 2 ^ 32)
unfolding gic_make_virtual_hardware_interrupt gic_make_virtual_software_interrupt
    gic_make_virtual_software_sgi gic_lr_read_pri gic_lr_read_vid
gic_lr_read-gic_make v p c q true h k = omega arith
gic_lr_read-gic_make v p c q false h k = omega arith
