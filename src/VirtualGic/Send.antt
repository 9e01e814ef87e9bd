-- ===== src/VirtualGic/Send.antt =====
-- The interrupts that virtual_gic.c sends to a VM: virtual_gic_send_hardware_int,
-- virtual_gic_send_software_int and what they call. `none` is a read beyond an array.
use t_visor.Prelude.{
  ℕ, zero, suc, ◌+◌, ◌-◌, ◌/◌, ◌%◌, ◌^◌, Bool, true, false, not, ◌&&◌, ◌||◌, Option, none, some,
  List, ◌∷◌, leb, ◌==◌, if◌then◌else◌,
}
use t_visor.Prelude.Words.{bit}
use t_visor.Gic.{
  gic_make_virtual_hardware_interrupt, gic_make_virtual_software_interrupt,
  gic_make_virtual_software_sgi,
}
use t_visor.VirtualGic.{virtual_gic_set_lr, sgi_id_max, spi_id_max}
use t_visor.VirtualGic.Distributor.{Distributor}

abbrev pub ppi_id_max : ℕ
ppi_id_max = 32

-- What the code does outside the VM's own state.
pub data HwCall : Type 0 where
  enable_int : (irq pri : ℕ) → HwCall
  disable_int : (irq : ℕ) → HwCall
  -- GICD_ICFGR of the machine.
  set_icfgr : (n value : ℕ) → HwCall
  wakeup : (vid : ℕ) → HwCall

-- The rest of `vgic_t`. In `ptov` and `vtop`, `none` is -1.
pub record Vgic : Type 0 where
  pub dist : Distributor
  pub ptov : ℕ → Option ℕ
  pub vtop : ℕ → Option ℕ
  pub use_irq : ℕ → ℕ
  pub real_pri : ℕ
  pub gicd_igroupr : ℕ → ℕ
  -- The VCPUs in the state SLEEP.
  pub asleep : ℕ → Bool
  -- `vcpu_get_last()->vid`, if it is not NULL.
  pub last_vid : Option ℕ
  pub machine_icfgr : ℕ → ℕ
  -- The calls made, the last one first.
  pub calls : List HwCall

abbrev pub call : HwCall → Vgic → Vgic
call c g = record g { calls = c ∷ g.calls }

abbrev pub abort : Vgic → Vgic
abort g = record g { dist = record (g.dist) { aborts = g.dist.aborts + 1 } }

-- The bit of an interrupt in an array of words.
abbrev pub irq_bit : (ℕ → ℕ) → ℕ → Bool
irq_bit f i = bit (i % 32) (f (i / 32))

abbrev pub enabled : Vgic → Bool
enabled g = g.dist.enable_g0 || g.dist.enable_g1

-- `if(vcpu->state==VCPU_STATE_SLEEP) vcpu_wakeup(vcpu);`
pub wake : ℕ → Vgic → Vgic
wake v g =
    if g.asleep v
    then record g { asleep = λ w. if v == w then false else g.asleep w; calls = wakeup v ∷ g.calls }
    else g

pub deliver : ℕ → ℕ → Vgic → Bool × Vgic
deliver vid value g =
    let (sent, d) = virtual_gic_set_lr vid value g.dist.delivery in
    (sent, record g { dist = record (g.dist) { delivery = d } })

-- `balance_func` of the VM: the core for an interrupt, if there is one.
module _ (balance : Vgic → ℕ → ℕ → Option ℕ) where
  -- The branch of virtual_gic_send_software_int_inner for a shared interrupt.
  pub send_shared : ℕ → ℕ → Vgic → Option (Bool × Vgic)
  unfolding wake deliver
  send_shared mask vintvec g =
      if leb spi_id_max vintvec then none else elim (balance g mask vintvec) [
        | none ↦ some (false, g)
        | some id ↦
            if irq_bit g.dist.gicd_isenabler vintvec
            then some (
                deliver id
                  (gic_make_virtual_software_interrupt vintvec (g.dist.gicd_ipriorityr vintvec)
                    (irq_bit g.gicd_igroupr vintvec))
                  (wake id g))
            else some (false, g)
      ]

  -- One round of the loop for a private interrupt, for the core `i`.
  pub send_private : ℕ → ℕ → ℕ → Vgic → Bool × Vgic
  unfolding wake deliver
  send_private mask vintvec i g =
      if bit i mask && bit vintvec (g.dist.ppi_isenabler i)
      then (let pri = g.dist.ppi_ipriorityr i vintvec in
          let grp1 = irq_bit g.gicd_igroupr vintvec in
          let val =
            if leb sgi_id_max vintvec
            then gic_make_virtual_software_interrupt vintvec pri grp1
            else gic_make_virtual_software_sgi vintvec g.dist.executing_vid pri grp1 in
          deliver i val (wake i g))
      else (false, g)

  -- The loop from `i`, with `n` cores left; was one sent so far?
  pub send_privates : ℕ → ℕ → ℕ → ℕ → Bool → Vgic → Bool × Vgic
  send_privates zero i mask vintvec flag g = (flag, g)
  send_privates (suc n) i mask vintvec flag g =
      let r = send_private mask vintvec i g in
      send_privates n (suc i) mask vintvec (flag || r.0) r.1

  pub virtual_gic_send_software_int_inner : ℕ → ℕ → Vgic → Option (Bool × Vgic)
  unfolding send_shared send_private send_privates
  virtual_gic_send_software_int_inner mask vintvec g =
      if not (enabled g)
      then some (false, g)
      else if vintvec == 2 ^ 32 - 1
      then some (false, g)
      else if leb ppi_id_max vintvec
      then send_shared mask vintvec g
      else some (send_privates g.dist.vcpu_num 0 mask vintvec false g)

  pub virtual_gic_send_software_int : ℕ → Vgic → Option (Bool × Vgic)
  unfolding virtual_gic_send_software_int_inner
  virtual_gic_send_software_int vintvec g =
      if leb ppi_id_max vintvec
      then (if leb spi_id_max vintvec
          then none
          else virtual_gic_send_software_int_inner (g.dist.gicd_itargetsr vintvec) vintvec g)
      else some (false, g)

  -- Wakes the sleeping cores of `mask` from `i` on.
  pub wake_all : ℕ → ℕ → ℕ → Vgic → Vgic
  unfolding wake
  wake_all zero i mask g = g
  wake_all (suc n) i mask g = wake_all n (suc i) mask (if bit i mask then wake i g else g)

  -- The end of virtual_gic_send_hardware_int, with the core and its enable bit.
  pub send_to : ℕ → ℕ → Option ℕ → Bool → Vgic → Bool × Vgic
  unfolding deliver
  send_to intvec vintvec target er g = elim target [
    | none ↦ (false, g)
    | some t ↦
        if er
        then (let pri =
              if leb ppi_id_max vintvec
              then g.dist.gicd_ipriorityr vintvec
              else g.dist.ppi_ipriorityr t vintvec in
            deliver t
              (gic_make_virtual_hardware_interrupt vintvec intvec pri
                (irq_bit g.gicd_igroupr vintvec))
              g)
        else (false, abort g)
  ]

  -- The target of a hardware interrupt, with the enable bit, and what is done to find it.
  pub find_target : ℕ → Vgic → Option ℕ × Bool × Vgic
  unfolding wake wake_all
  find_target vintvec g =
      if leb ppi_id_max vintvec
      then (if irq_bit g.dist.gicd_isenabler vintvec
          then (let mask = g.dist.gicd_itargetsr vintvec in
              let woken = wake_all g.dist.vcpu_num 0 mask g in
              (balance woken mask vintvec, true, woken))
          else (none, false, g))
      else elim g.last_vid [
        | none ↦ (none, false, abort g)
        | some v ↦ (some v, bit vintvec (g.dist.ppi_isenabler v), wake v g)
      ]

  -- `ptov` has 512 entries.
  pub virtual_gic_send_hardware_int : ℕ → Vgic → Option (Bool × Vgic)
  unfolding find_target send_to
  virtual_gic_send_hardware_int eoir g =
      let intvec = eoir % 2 ^ 10 in
      if leb spi_id_max intvec then none else elim (g.ptov intvec) [
        | none ↦ some (false, g)
        | some vintvec ↦
            if not (enabled g)
            then some (false, abort g)
            else (let (target, er, found) = find_target vintvec g in
                some (send_to intvec vintvec target er found))
      ]
