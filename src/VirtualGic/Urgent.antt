-- ===== src/VirtualGic/Urgent.antt =====
-- The loop of virtual_gic_maintenance in virtual_gic.c.
use t_visor.Prelude.{
  ℕ, zero, suc, ◌+◌, ◌≤◌, ◌<◌, ◌≡◌, refl, true, false, Option, none, some, arith, ltb, ◌==◌, ◌&&◌,
  subst, Bool-cases, inl, inr,
}
use t_visor.Prelude.Words.{bit}
use t_visor.Gic.{gic_lr_read_pri}
use t_visor.VirtualGic.{CoreState, is_pending, most_urgent, spi_id_max}

-- The choice `r` is right for the interrupts below `n`: it waits in memory and none that waits is
-- more urgent, or none waits at all.
abbrev pub BestBelow : CoreState → ℕ → Option ℕ → Type 0
BestBelow c n none = (j : ℕ) → j < n → is_pending c j ≡ false
BestBelow c n (some t) =
    (is_pending c t ≡ true)
    × (t < n)
    × ((j : ℕ)
        → j < n
        → is_pending c j ≡ true
        → gic_lr_read_pri (c.pending_lr t) ≤ gic_lr_read_pri (c.pending_lr j))

-- The variable `max_pri` while the choice is `r`.
abbrev pri_of : CoreState → Option ℕ → ℕ
pri_of c none = 0xff
pri_of c (some t) = gic_lr_read_pri (c.pending_lr t)

pri_below : (v : ℕ) → gic_lr_read_pri v < 0xff
unfolding gic_lr_read_pri
pri_below v = omega arith

module _ (c : CoreState) where
  taken :
      (i : ℕ) (tar : Option ℕ)
      → is_pending c i ≡ true
      → gic_lr_read_pri (c.pending_lr i) ≤ pri_of c tar
      → BestBelow c i tar
      → BestBelow c (suc i) (some i)
  taken i none p h b = (
    p,
    omega arith,
    λ j k q. elim (Bool-cases (i == j)) [
      | inl at ↦ ground arith
      | inr off ↦ absurd (ground (arith, b j (ground arith)))
    ],
  )
  taken i (some t) p h b = (
    p,
    omega arith,
    λ j k q. elim (Bool-cases (i == j)) [
      | inl at ↦ ground arith
      | inr off ↦ let le = b.2 j (ground arith) q in omega arith
    ],
  )

  passed :
      (i : ℕ) (tar : Option ℕ)
      → is_pending c i ≡ false
      → BestBelow c i tar
      → BestBelow c (suc i) tar
  passed i none p b =
      λ j k. elim (Bool-cases (i == j)) [ inl at ↦ ground arith | inr off ↦ b j (ground arith) ]
  passed i (some t) p b = (
    b.0,
    omega (arith, b.1),
    λ j k q. elim (Bool-cases (i == j)) [
      | inl at ↦ absurd (ground arith)
      | inr off ↦ b.2 j (ground arith) q
    ],
  )

  stays :
      (i : ℕ) (tar : Option ℕ)
      → pri_of c tar ≤ gic_lr_read_pri (c.pending_lr i)
      → BestBelow c i tar
      → BestBelow c (suc i) tar
  stays i none h b = absurd (omega (arith, pri_below (c.pending_lr i)))
  stays i (some t) h b = (
    b.0,
    omega (arith, b.1),
    λ j k q. elim (Bool-cases (i == j)) [
      | inl at ↦ ground arith
      | inr off ↦ b.2 j (ground arith) q
    ],
  )

  choice-BestBelow :
      (n i : ℕ) (tar : Option ℕ) (m : ℕ)
      → i + n ≡ m
      → BestBelow c i tar
      → BestBelow c m (most_urgent n i (pri_of c tar) tar c)
  unfolding most_urgent
  choice-BestBelow zero i tar m e b = subst (λ k. BestBelow c k tar) (omega arith) b
  choice-BestBelow (suc n) i none m e b = elim (Bool-cases (is_pending c i)) [
    | inr off ↦ rw off (choice-BestBelow n (suc i) none m (omega arith) (passed i none off b))
    | inl on ↦
        let lt : ltb (gic_lr_read_pri (c.pending_lr i)) 0xff ≡ true =
          ground (arith, pri_below (c.pending_lr i)) in
        rw (on, lt)
          (choice-BestBelow n (suc i) (some i) m (omega arith) (taken i none on (ground arith) b))
  ]
  choice-BestBelow (suc n) i (some t) m e b =
      let own = gic_lr_read_pri (c.pending_lr i) in
      let best = gic_lr_read_pri (c.pending_lr t) in
      elim (Bool-cases (is_pending c i)) [
        | inr off ↦
            rw off (choice-BestBelow n (suc i) (some t) m (omega arith) (passed i (some t) off b))
        | inl on ↦
            let take = λ (h : own ≤ best).
              choice-BestBelow n (suc i) (some i) m (omega arith) (taken i (some t) on h b) in
            let stay = λ (h : best ≤ own).
              choice-BestBelow n (suc i) (some t) m (omega arith) (stays i (some t) h b) in
            elim (Bool-cases (ltb own best)) [
              | inl lt ↦ rw (on, lt) (take (ground arith))
              | inr ge ↦ elim (Bool-cases (own == best && bit 29 (c.pending_lr t))) [
                | inl tie ↦ rw (on, ge, tie) (take (ground arith))
                | inr untied ↦ rw (on, ge, untied) (stay (ground arith))
              ]
            ]
      ]

  -- The loop of virtual_gic_maintenance finds an interrupt that waits in memory, and none that
  -- waits is more urgent; it finds none exactly if none waits.
  pub most_urgent-BestBelow : BestBelow c spi_id_max (most_urgent spi_id_max 0 0xff none c)
  most_urgent-BestBelow =
      choice-BestBelow spi_id_max 0 none spi_id_max refl (λ j h. absurd (omega arith))
