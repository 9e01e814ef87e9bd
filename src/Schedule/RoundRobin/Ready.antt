-- ===== src/Schedule/RoundRobin/Ready.antt =====
-- How often a VCPU is in the queue of my_scheduler.c.
use t_visor.Prelude.{
  ℕ, ◌+◌, ◌≡◌, ◌⊎◌, ap, refl, inl, inr, some, List, [], ◌∷◌, ◌++◌, arith, ◌==◌, if◌then◌else◌,
}
use t_visor.TimerEvent.Inv.{List-cases}
use t_visor.Schedule.{View, VcpuState}
use t_visor.Schedule.RoundRobin.{RrState, my_schedule, my_enque, my_block, my_unblock, my_yield}

-- How many of the slots belong to `v`.
abbrev pub owned_by : (ℕ → ℕ) → ℕ → List ℕ → ℕ
owned_by vcpu v [] = 0
owned_by vcpu v (q ∷ qs) = (if vcpu q == v then 1 else 0) + owned_by vcpu v qs

pub owned_by-append :
    (vcpu : ℕ → ℕ) (v : ℕ) (xs ys : List ℕ)
    → owned_by vcpu v (xs ++ ys) ≡ owned_by vcpu v xs + owned_by vcpu v ys
owned_by-append vcpu v [] ys = omega arith
owned_by-append vcpu v (x ∷ xs) ys = omega (arith, owned_by-append vcpu v xs ys)

module _ (view : View) (v : ℕ) (s : RrState) (w : ℕ) where
  pub my_enque-adds :
      s.vcpu (view.sched_state v) ≡ v
      → let t = my_enque view v s in
        (t.vcpu ≡ s.vcpu)
        × (owned_by t.vcpu w t.wque ≡ owned_by s.vcpu w s.wque + (if v == w then 1 else 0))
  unfolding my_enque
  my_enque-adds o =
      (ground arith, ground (arith, owned_by-append s.vcpu w s.wque (view.sched_state v ∷ [])))

  pub my_unblock-adds :
      s.vcpu (view.sched_state v) ≡ v
      → view.state v ≡ VcpuState.sleep
      → let t = my_unblock view v s in
        (t.vcpu ≡ s.vcpu)
        × (owned_by t.vcpu w t.wque ≡ owned_by s.vcpu w s.wque + (if v == w then 1 else 0))
  unfolding my_unblock my_enque
  my_unblock-adds o i =
      (ground arith, ground (arith, owned_by-append s.vcpu w s.wque (view.sched_state v ∷ [])))

pub my_schedule-chooses :
    (view : View) (s : RrState)
    → let (r, t) = my_schedule view s in
      (t.vcpu ≡ s.vcpu)
      × (((v : ℕ) × (r ≡ some v)
            × ((w : ℕ)
                → owned_by s.vcpu w s.wque ≡ owned_by t.vcpu w t.wque + (if v == w then 1 else 0)))
          ⊎ ((r ≡ view.executing)
              × ((w : ℕ) → owned_by t.vcpu w t.wque ≡ owned_by s.vcpu w s.wque)))
unfolding my_schedule
my_schedule-chooses view s = elim (List-cases s.wque) [
  | inl e ↦ rw (e, my_schedule) (refl, inr (refl, λ w. ap (owned_by s.vcpu w) e))
  | inr (q, rest, e) ↦
      rw (e, my_schedule) (refl, inl (s.vcpu q, refl, λ w. omega (arith, ap (owned_by s.vcpu w) e)))
]

-- The flag is none of the queue's concern.
pub my_yield-same : (s : RrState) → ((my_yield s).vcpu ≡ s.vcpu) × ((my_yield s).wque ≡ s.wque)
unfolding my_yield
my_yield-same s = (refl, refl)

pub my_block_lem : (view : View) (v : ℕ) (s : RrState) → my_block view v s ≡ my_enque view v s
unfolding my_block my_enque
my_block_lem view v s = refl
