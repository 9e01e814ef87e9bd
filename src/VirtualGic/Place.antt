-- ===== src/VirtualGic/Place.antt =====
-- The last loop of virtual_gic_set_lr in virtual_gic.c, when no list register is free.
use t_visor.Prelude.{
  ℕ, zero, suc, ◌+◌, ◌≤◌, ◌<◌, ◌≡◌, refl, ◌∙◌, true, false, none, some, List, [], ◌∷◌, arith, ltb,
  ◌==◌, if◌then◌else◌, Bool-cases, inl, inr,
}
use t_visor.Prelude.Words.{bit}
use t_visor.Gic.{gic_lr_read_pri, gic_lr_read_vid}
use t_visor.VirtualGic.{
  Delivery, virtual_gic_read_lr, virtual_gic_read_elsr0, virtual_gic_write_lr, is_pending,
  find_same, place, pend, virtual_gic_set_lr, gich_lr_num,
}

-- `n` list registers from `i` on.
abbrev pub lrs : ℕ → ℕ → ℕ → Delivery → List ℕ
lrs zero i vid d = []
lrs (suc n) i vid d = virtual_gic_read_lr d vid i ∷ lrs n (suc i) vid d

abbrev pub count : ℕ → List ℕ → ℕ
count x [] = 0
count x (y ∷ ys) = (if x == y then 1 else 0) + count x ys

-- The value `lr` went into `n` list registers from `i` on, all in use, and `left` is left over: the
-- values are the same ones, as often, `left` is not more urgent than any of them, and the registers
-- before `i` are as before. A smaller number is more urgent.
pub record Placed (n i vid lr : ℕ) (d : Delivery) (left : ℕ) (d' : Delivery) : Type 0 where
  pub outside : (j : ℕ) → j < i → virtual_gic_read_lr d' vid j ≡ virtual_gic_read_lr d vid j
  pub urgent :
      (j : ℕ)
      → i ≤ j
      → j < i + n
      → gic_lr_read_pri (virtual_gic_read_lr d' vid j) ≤ gic_lr_read_pri left
  pub kept : (x : ℕ) → count x (left ∷ lrs n i vid d') ≡ count x (lr ∷ lrs n i vid d)
  pub later : gic_lr_read_pri lr ≤ gic_lr_read_pri left

module _ (vid i v : ℕ) (d : Delivery) where
  read-write : virtual_gic_read_lr (virtual_gic_write_lr d vid i v) vid i ≡ v
  unfolding virtual_gic_read_lr virtual_gic_write_lr
  read-write = ground arith

  read-write_ne :
      (j : ℕ)
      → (i == j) ≡ false
      → virtual_gic_read_lr (virtual_gic_write_lr d vid i v) vid j ≡ virtual_gic_read_lr d vid j
  unfolding virtual_gic_read_lr virtual_gic_write_lr
  read-write_ne j o = ground arith

  lrs-write : (n j : ℕ) → i < j → lrs n j vid (virtual_gic_write_lr d vid i v) ≡ lrs n j vid d
  lrs-write zero j h = refl
  lrs-write (suc n) j h =
      ground (arith, read-write_ne j (ground arith), lrs-write n (suc j) (omega arith))

module _ (n i vid lr : ℕ) (d : Delivery) (left : ℕ) (d' : Delivery) where
  swapped_lem :
      gic_lr_read_pri lr < gic_lr_read_pri (virtual_gic_read_lr d vid i)
      → Placed n (suc i) vid (virtual_gic_read_lr d vid i) (virtual_gic_write_lr d vid i lr) left d'
      → Placed (suc n) i vid lr d left d'
  swapped_lem h p = record {
    outside = λ j b. p.outside j (omega arith) ∙ read-write_ne vid i lr d j (ground arith);
    urgent = λ j a b. elim (Bool-cases (i == j)) [
      | inl at ↦ ground (arith, p.outside i (omega arith), read-write vid i lr d, p.later)
      | inr past ↦ p.urgent j (ground arith) (omega arith)
    ];
    kept = λ x. ground (
      arith,
      p.kept x,
      p.outside i (omega arith),
      read-write vid i lr d,
      lrs-write vid i lr d n (suc i) (omega arith),
    );
    later = omega (arith, p.later);
  }

  kept_lem :
      gic_lr_read_pri (virtual_gic_read_lr d vid i) ≤ gic_lr_read_pri lr
      → Placed n (suc i) vid lr d left d'
      → Placed (suc n) i vid lr d left d'
  kept_lem h p = record {
    outside = λ j b. p.outside j (omega arith);
    urgent = λ j a b. elim (Bool-cases (i == j)) [
      | inl at ↦ ground (arith, p.outside i (omega arith), p.later)
      | inr past ↦ p.urgent j (ground arith) (omega arith)
    ];
    kept = λ x. ground (arith, p.kept x, p.outside i (omega arith));
    later = p.later;
  }

pub place-Placed :
    (n i is_empty vid lr : ℕ) (d : Delivery)
    → ((j : ℕ) → i ≤ j → j < i + n → bit j is_empty ≡ false)
    → (left : ℕ) × (d' : Delivery) × (place n i is_empty vid lr d ≡ (some left, d'))
      × Placed n i vid lr d left d'
unfolding place
place-Placed zero i is_empty vid lr d full = (
  lr,
  d,
  refl,
  record {
    outside = λ j b. refl;
    urgent = λ j a b. absurd (omega arith);
    kept = λ x. refl;
    later = omega arith;
  },
)
place-Placed (suc n) i is_empty vid lr d full =
    let prev = virtual_gic_read_lr d vid i in
    let here = full i (omega arith) (omega arith) in
    elim (Bool-cases (ltb (gic_lr_read_pri lr) (gic_lr_read_pri prev))) [
      | inl h ↦
          let (left, d', e, p) =
            place-Placed n (suc i) is_empty vid prev (virtual_gic_write_lr d vid i lr)
              (λ j a b. full j (omega arith) (omega arith)) in
          (left, d', rw (here, h, e) refl, swapped_lem n i vid lr d left d' (ground arith) p)
      | inr h ↦
          let (left, d', e, p) =
            place-Placed n (suc i) is_empty vid lr d
              (λ j a b. full j (omega arith) (omega arith)) in
          (left, d', rw (here, h, e) refl, kept_lem n i vid lr d left d' (ground arith) p)
    ]

-- When all four list registers are in use, and the interrupt neither waits in memory nor stands in
-- one of them, virtual_gic_set_lr keeps all values, the new one included: the least urgent of the
-- five waits in memory, and the others stand in the list registers.
pub virtual_gic_set_lr-Placed :
    (vid lr_value : ℕ) (d : Delivery)
    → is_pending (d.core_state vid) (gic_lr_read_vid lr_value) ≡ false
    → find_same gich_lr_num 0 (virtual_gic_read_elsr0 d vid) vid lr_value d ≡ none
    → ((j : ℕ) → j < gich_lr_num → bit j (virtual_gic_read_elsr0 d vid) ≡ false)
    → (left : ℕ) × (d' : Delivery) × (virtual_gic_set_lr vid lr_value d
        ≡ (true, pend vid (gic_lr_read_vid left) left d'))
      × Placed gich_lr_num 0 vid lr_value d left d'
unfolding virtual_gic_set_lr
virtual_gic_set_lr-Placed vid lr_value d fresh new full =
    let (left, d', e, p) =
      place-Placed gich_lr_num 0 (virtual_gic_read_elsr0 d vid) vid lr_value d
        (λ j a b. full j (omega arith)) in
    (left, d', rw (fresh, new, e) refl, p)
