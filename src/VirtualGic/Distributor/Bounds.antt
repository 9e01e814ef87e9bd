-- ===== src/VirtualGic/Distributor/Bounds.antt =====
-- Which reads of the enable bits of the virtual distributor in virtual_gic.c go beyond the array.
use t_visor.Prelude.{
  ℕ, ◌+◌, ◌-◌, ◌*◌, ◌/◌, ◌≤◌, ◌<◌, ◌≡◌, refl, true, false, Option, none, some, arith, ltb, leb,
  ◌==◌, ◌&&◌, if◌then◌else◌,
}
use t_visor.VirtualGic.Distributor.{Distributor, in_array, read_word, virtual_gicd_read_emulate_w}

module _ (g : Distributor) (i : ℕ) where
  set_word :
      (off : ℕ)
      → off ≡ 0x100 + 4 * i
      → 1 ≤ i
      → i < 32
      → read_word g off
        ≡ (in_array 16 ((off - 0x100) / 4) (g.gicd_isenabler ((off - 0x100) / 4)), true)
  unfolding read_word
  set_word off e a b =
      let c0 : (off == 0x000) ≡ false = ground arith in
      let c1 : (off == 0x004) ≡ false = ground arith in
      let c2 : (off == 0x008) ≡ false = ground arith in
      let c3 : (off == 0x100) ≡ false = ground arith in
      let c4 : (off == 0x180) ≡ false = ground arith in
      let c5 : (leb 0x104 off && ltb off 0x180) ≡ true = ground arith in
      rw (c0, c1, c2, c3, c4, c5) refl

  clear_word :
      (off : ℕ)
      → off ≡ 0x180 + 4 * i
      → 1 ≤ i
      → i < 32
      → read_word g off
        ≡ (in_array 16 ((off - 0x180) / 4) (g.gicd_isenabler ((off - 0x180) / 4)), true)
  unfolding read_word
  clear_word off e a b =
      let c0 : (off == 0x000) ≡ false = ground arith in
      let c1 : (off == 0x004) ≡ false = ground arith in
      let c2 : (off == 0x008) ≡ false = ground arith in
      let c3 : (off == 0x100) ≡ false = ground arith in
      let c4 : (off == 0x180) ≡ false = ground arith in
      let c5 : (leb 0x104 off && ltb off 0x180) ≡ false = ground arith in
      let c6 : (leb 0x184 off && ltb off 0x200) ≡ true = ground arith in
      rw (c0, c1, c2, c3, c4, c5, c6) refl

  -- A read of GICD_ISENABLER or GICD_ICENABLER at a word from 1 to 31 gives the enable bits up to
  -- word 15, and is beyond the array from word 16 on.
  pub read_enabler-bounds :
      1 ≤ i
      → i < 32
      → let r : Option (ℕ × Distributor) =
          if ltb i 16 then some (g.gicd_isenabler i, g) else none in
        (virtual_gicd_read_emulate_w g (0x100 + 4 * i) ≡ r)
        × (virtual_gicd_read_emulate_w g (0x180 + 4 * i) ≡ r)
  unfolding virtual_gicd_read_emulate_w
  read_enabler-bounds a b =
      let s : (0x100 + 4 * i - 0x100) / 4 ≡ i = omega arith in
      let c : (0x180 + 4 * i - 0x180) / 4 ≡ i = omega arith in
      (
        rw (set_word (0x100 + 4 * i) refl a b) (rw s (ground arith)),
        rw (clear_word (0x180 + 4 * i) refl a b) (rw c (ground arith)),
      )
