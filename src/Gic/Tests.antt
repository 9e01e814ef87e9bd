-- ===== src/Gic/Tests.antt =====
-- Values of gic.c for the interrupts 27 and 41.
use t_visor.Prelude.{◌≡◌, ◌<◌, ◌^◌, true, arith}
use t_visor.Gic.{
  gic_make_virtual_hardware_interrupt, gic_make_virtual_software_interrupt,
  gic_make_virtual_software_sgi, gic_lr_read_pri, gic_lr_read_vid,
}
use t_visor.Gic.Fields.{gic_lr_read-gic_make}

gic_lr_read-gic_make_example :
    let hard = gic_make_virtual_hardware_interrupt 27 41 0xa5 true in
    let soft = gic_make_virtual_software_interrupt 27 0xa5 true in
    let sgi = gic_make_virtual_software_sgi 27 1 0xa5 true in
    (gic_lr_read_vid hard ≡ 27)
    × (gic_lr_read_vid soft ≡ 27)
    × (gic_lr_read_vid sgi ≡ 27)
    × (gic_lr_read_pri hard ≡ 0xa0)
    × (gic_lr_read_pri soft ≡ 0xa0)
    × (gic_lr_read_pri sgi ≡ 0xa0)
    × (hard < 2 ^ 32)
    × (soft < 2 ^ 32)
    × (sgi < 2 ^ 32)
gic_lr_read-gic_make_example = gic_lr_read-gic_make 27 41 1 0xa5 true (omega arith) (omega arith)
