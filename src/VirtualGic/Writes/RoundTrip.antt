-- ===== src/VirtualGic/Writes/RoundTrip.antt =====
-- What a guest writes to the enable bits of the virtual distributor in virtual_gic.c it reads back.
use t_visor.Prelude.{
  ℕ, zero, suc, ◌+◌, ◌-◌, ◌*◌, ◌/◌, ◌%◌, ◌≤◌, ◌<◌, ◌≡◌, ◌≢◌, refl, ap, ◌∙◌, true, false, not, ◌&&◌,
  ◌||◌, Option, some, Option-cases, inl, inr, arith, ltb, leb, ◌==◌, if◌then◌else◌, ==_self,
}
use t_visor.Prelude.Words.{bit}
use t_visor.TimerEvent.{put}
use t_visor.VirtualGic.Distributor.{Distributor, or_bits, virtual_gicd_read_emulate_w}
use t_visor.VirtualGic.Distributor.Bounds.{read_enabler-bounds}
use t_visor.VirtualGic.Send.{Vgic}
use t_visor.VirtualGic.Writes.{
  clear_bits, enable_one, enable_all, disable_one, disable_all, set_dist, set_shared, clear_shared,
  write_isenabler, write_icenabler, within, virtual_gicd_write_emulate_w,
}

pub bit-or_bits : (n j a b : ℕ) → j < n → bit j (or_bits n a b) ≡ (bit j a || bit j b)
unfolding bit or_bits
bit-or_bits zero j a b h = absurd (omega arith)
bit-or_bits (suc n) zero a b h = ground arith
bit-or_bits (suc n) (suc j) a b h =
    let e : ((if a % 2 + b % 2 == 0 then 0 else 1) + 2 * or_bits n (a / 2) (b / 2)) / 2
        ≡ or_bits n (a / 2) (b / 2) =
      ground arith in
    rw e (bit-or_bits n j (a / 2) (b / 2) (omega arith))

pub bit-clear_bits : (n j a b : ℕ) → j < n → bit j (clear_bits n a b) ≡ (bit j a && not (bit j b))
unfolding bit clear_bits
bit-clear_bits zero j a b h = absurd (omega arith)
bit-clear_bits (suc n) zero a b h = ground arith
bit-clear_bits (suc n) (suc j) a b h =
    let e : ((if b % 2 == 0 then a % 2 else 0) + 2 * clear_bits n (a / 2) (b / 2)) / 2
        ≡ clear_bits n (a / 2) (b / 2) =
      ground arith in
    rw e (bit-clear_bits n j (a / 2) (b / 2) (omega arith))

enable_one-dist : (pri : ℕ → ℕ) (v : ℕ) (g : Vgic) → (enable_one pri v g).dist ≡ g.dist
unfolding enable_one
enable_one-dist pri v g = elim (Option-cases (g.vtop v)) [
  | inl e ↦ rw (e, enable_one) refl
  | inr (p, e) ↦ rw (e, enable_one) (ground arith)
]

enable_all-dist :
    (n j : ℕ) (pri : ℕ → ℕ) (base value : ℕ) (g : Vgic)
    → (enable_all n j pri base value g).dist ≡ g.dist
unfolding enable_all
enable_all-dist zero j pri base value g = refl
enable_all-dist (suc n) j pri base value g =
    let next = if bit j value then enable_one pri (base + j) g else g in
    enable_all-dist n (suc j) pri base value next ∙ ground (arith, enable_one-dist pri (base + j) g)

disable_one-dist : (v : ℕ) (g : Vgic) → (disable_one v g).dist ≡ g.dist
unfolding disable_one
disable_one-dist v g = elim (Option-cases (g.vtop v)) [
  | inl e ↦ rw (e, disable_one) refl
  | inr (p, e) ↦ rw (e, disable_one) (ground arith)
]

disable_all-dist : (n j base value : ℕ) (g : Vgic) → (disable_all n j base value g).dist ≡ g.dist
unfolding disable_all
disable_all-dist zero j base value g = refl
disable_all-dist (suc n) j base value g =
    let next = if bit j value then disable_one (base + j) g else g in
    disable_all-dist n (suc j) base value next ∙ ground (arith, disable_one-dist (base + j) g)

module _ (balance : Vgic → ℕ → ℕ → Option ℕ) (i value : ℕ) (g : Vgic) (low : 1 ≤ i)
    (high : i < 16) where
  set_step :
      (off : ℕ)
      → off ≡ 0x100 + 4 * i
      → virtual_gicd_write_emulate_w balance off value g
        ≡ write_isenabler ((off - 0x100) / 4) value g
  unfolding virtual_gicd_write_emulate_w
  set_step off e =
      let c0 : (off == 0x000) ≡ false = ground arith in
      let c1 : (off == 0x100) ≡ false = ground arith in
      let c2 : within 0x104 0x180 off ≡ true = ground arith in rw (c0, c1, c2) refl

  clear_step :
      (off : ℕ)
      → off ≡ 0x180 + 4 * i
      → virtual_gicd_write_emulate_w balance off value g
        ≡ write_icenabler ((off - 0x180) / 4) value g
  unfolding virtual_gicd_write_emulate_w
  clear_step off e =
      let c0 : (off == 0x000) ≡ false = ground arith in
      let c1 : (off == 0x100) ≡ false = ground arith in
      let c2 : within 0x104 0x180 off ≡ false = ground arith in
      let c3 : (off == 0x180) ≡ false = ground arith in
      let c4 : within 0x184 0x200 off ≡ true = ground arith in rw (c0, c1, c2, c3, c4) refl

  abbrev pub after_set : Distributor
  after_set = record (g.dist) {
    gicd_isenabler = put g.dist.gicd_isenabler i (or_bits 32 (g.dist.gicd_isenabler i) value);
  }

  abbrev pub after_clear : Distributor
  after_clear = record (g.dist) {
    gicd_isenabler = put g.dist.gicd_isenabler i (clear_bits 32 (g.dist.gicd_isenabler i) value);
  }

  set_shared-dist : (set_shared i value g).dist ≡ after_set
  unfolding set_shared
  set_shared-dist =
      enable_all-dist 32 0 g.dist.gicd_ipriorityr (i * 32) value (set_dist g after_set)

  clear_shared-dist : (clear_shared i value g).dist ≡ after_clear
  unfolding clear_shared
  clear_shared-dist = disable_all-dist 32 0 (i * 32) value (set_dist g after_clear)

  write_set :
      virtual_gicd_write_emulate_w balance (0x100 + 4 * i) value g ≡ some (set_shared i value g)
  unfolding write_isenabler
  write_set =
      let s : (0x100 + 4 * i - 0x100) / 4 ≡ i = omega arith in
      let t : leb 16 i ≡ false = ground arith in
      let z : (i == 0) ≡ false = ground arith in
      set_step (0x100 + 4 * i) refl ∙ rw s (rw (t, z) refl)

  write_clear :
      virtual_gicd_write_emulate_w balance (0x180 + 4 * i) value g ≡ some (clear_shared i value g)
  unfolding write_icenabler
  write_clear =
      let s : (0x180 + 4 * i - 0x180) / 4 ≡ i = omega arith in
      let t : leb 16 i ≡ false = ground arith in
      let z : (i == 0) ≡ false = ground arith in
      clear_step (0x180 + 4 * i) refl ∙ rw s (rw (t, z) refl)

  read_word_of :
      (t : Distributor)
      → (virtual_gicd_read_emulate_w t (0x100 + 4 * i) ≡ some (t.gicd_isenabler i, t))
        × (virtual_gicd_read_emulate_w t (0x180 + 4 * i) ≡ some (t.gicd_isenabler i, t))
  read_word_of t =
      let (a, b) = read_enabler-bounds t i low (omega arith) in
      let in_range : ltb i 16 ≡ true = ground arith in (a ∙ rw in_range refl, b ∙ rw in_range refl)

  other_words : (f : ℕ → ℕ) (w k : ℕ) → k ≢ i → put f i w k ≡ f k
  other_words f w k o = ground arith

  -- A write to one of the shared words 1 to 15 of GICD_ISENABLER sets the bits of the value, one of GICD_ICENABLER
  -- clears them, and what is read from either register is the word after that. The other bits of the
  -- word and the other words stay.
  pub write_enabler-read :
      (j : ℕ)
      → j < 32
      → (set clear : Vgic) × (after before : ℕ) × (virtual_gicd_write_emulate_w balance
            (0x100 + 4 * i)
            value
            g
          ≡ some set)
        × (virtual_gicd_read_emulate_w set.dist (0x180 + 4 * i) ≡ some (after, set.dist))
        × (bit j after ≡ (bit j (g.dist.gicd_isenabler i) || bit j value))
        × (virtual_gicd_write_emulate_w balance (0x180 + 4 * i) value g ≡ some clear)
        × (virtual_gicd_read_emulate_w clear.dist (0x100 + 4 * i) ≡ some (before, clear.dist))
        × (bit j before ≡ (bit j (g.dist.gicd_isenabler i) && not (bit j value)))
        × ((k : ℕ)
            → k ≢ i
            → (set.dist.gicd_isenabler k ≡ g.dist.gicd_isenabler k)
              × (clear.dist.gicd_isenabler k ≡ g.dist.gicd_isenabler k))
  write_enabler-read j h =
      let s = set_shared i value g in
      let c = clear_shared i value g in
      let sw : s.dist.gicd_isenabler ≡ after_set.gicd_isenabler =
        ap (λ (t : Distributor). t.gicd_isenabler) set_shared-dist in
      let cw : c.dist.gicd_isenabler ≡ after_clear.gicd_isenabler =
        ap (λ (t : Distributor). t.gicd_isenabler) clear_shared-dist in
      let self : (w : ℕ) → put g.dist.gicd_isenabler i w i ≡ w = λ w. rw (==_self i) refl in
      (
        s,
        c,
        s.dist.gicd_isenabler i,
        c.dist.gicd_isenabler i,
        write_set,
        (read_word_of s.dist).1,
        ap (λ (f : ℕ → ℕ). bit j (f i)) sw
            ∙ ap (bit j) (self _)
            ∙ bit-or_bits 32 j (g.dist.gicd_isenabler i) value h,
        write_clear,
        (read_word_of c.dist).0,
        ap (λ (f : ℕ → ℕ). bit j (f i)) cw
            ∙ ap (bit j) (self _)
            ∙ bit-clear_bits 32 j (g.dist.gicd_isenabler i) value h,
        λ k o. (
          ap (λ (f : ℕ → ℕ). f k) sw ∙ other_words g.dist.gicd_isenabler _ k o,
          ap (λ (f : ℕ → ℕ). f k) cw ∙ other_words g.dist.gicd_isenabler _ k o,
        ),
      )
