-- ===== src/Vcpu/Dispatch.antt =====
-- The scheduler chooses, and vcpu_preemption of vcpu.c carries the choice out.
use t_visor.Prelude.{
  map-some, ℕ, ◌≡◌, ◌≢◌, refl, sym, ◌∙◌, ap, subst, inl, inr, Bool-cases, none, some, Option,
  Option-cases, ==_of_ne, arith, ◌==◌, ==_self,
}
use t_visor.Schedule.{VcpuState}
use t_visor.Vcpu.{
  Pool, Machine, view_of, set_state, enter, leave, take_over, vcpu_start, vcpu_save_state,
  switch_to, vcpu_preemption, reschedule,
}
use t_visor.Vcpu.Interface.{ReadyQueue, Adds, Same, Chooses}
use t_visor.Vcpu.Life.{Coherent}
use t_visor.Vcpu.Switch.{Entered, enter-Entered, Entered-Coherent, Switched-Coherent}

-- The scheduler was asked in `s`, and its choice is executing in `s'`.
abbrev pub Runs : {S C : Type 0} → Machine S C → Pool S C → Pool S C → Type 0
Runs {S} m s s' =
    (r : Option ℕ) × (k : S) × (m.operations.schedule (view_of s) s.sched ≡ some (r, k))
    × (s'.exec_cpu ≡ r)

module _ {S C : Type 0} (m : Machine S C) (q : ReadyQueue m) where
  open q use {count, Owned}

  pub queued_waits :
      (s : Pool S C) (k : S) (v : ℕ)
      → Coherent m q s
      → Adds count v k s.sched
      → s.state v ≡ VcpuState.wait
  queued_waits s k v h a = ground (arith, a v, h.queued v, ==_self v)

  -- What `leave` does to the fields that count.
  pub leave_lem :
      (e v : ℕ) (t : Pool S C) (k : S)
      → let u = leave m e v t k in
        (u.sched_state ≡ t.sched_state)
        × (u.num_vcpu ≡ t.num_vcpu)
        × (u.sched ≡ k)
        × (u.state ≡ set_state t.state e VcpuState.wait)
        × (u.exec_cpu ≡ none)
  unfolding leave
  leave_lem e v t k = elim (Bool-cases (t.vm e == t.vm v)) [
    | inl same ↦ rw same (refl, refl, refl, refl, refl)
    | inr other ↦ rw other (refl, refl, refl, refl, refl)
  ]

  take_over-Entered :
      (v : ℕ) (t : Pool S C)
      → Owned t.num_vcpu t.sched_state t.sched
      → t.exec_cpu ≡ none
      → t.state v ≢ VcpuState.start
      → Entered m q t v (take_over m v t)
  unfolding take_over
  take_over-Entered v t own x o =
      let n = enter-Entered m q v t own x o in
      let y = vcpu_start m (some v) t in
      let (own', same) = q.clear_flag_same y.num_vcpu y.sched_state y.sched n.0 in
      (own', λ w. same w ∙ n.1 w, n.2, n.3, n.4, n.5)

  switched :
      (s : Pool S C) (k k' : S) (e v : ℕ)
      → Coherent m q s
      → s.exec_cpu ≡ some e
      → Adds count v k s.sched
      → Owned s.num_vcpu s.sched_state k'
      → Adds count e k k'
      → (t : Pool S C) → t.sched_state ≡ s.sched_state
      → t.num_vcpu ≡ s.num_vcpu
      → t.sched ≡ k'
      → t.state ≡ set_state s.state e VcpuState.wait
      → t.exec_cpu ≡ none
      → Coherent m q (take_over m v t)
  switched s k k' e v h x a own b t fs fn fk fst fx =
      let run = h.running e x in
      let waits = queued_waits s k v h a in
      Switched-Coherent m q s t (take_over m v t) k e v h x a (λ w. ap (λ z. count z w) fk ∙ b w) fn
        fst (take_over-Entered v t (rw (fs, fn, fk) own) fx (λ y. ground arith))

  switch_to-Coherent :
      (s s' : Pool S C) (k : S) (e v : ℕ)
      → Coherent m q s
      → s.exec_cpu ≡ some e
      → Owned s.num_vcpu s.sched_state k
      → Adds count v k s.sched
      → switch_to m e v (record s { sched = k }) ≡ some s'
      → Coherent m q s'
  unfolding switch_to vcpu_save_state
  switch_to-Coherent s s' k e v h x own a r =
      let t : Pool S C = vcpu_save_state m e (record s { sched = k }) in
      let (k', called, is) =
        map-some (λ z. take_over m v (leave m e v t z)) (m.operations.block (view_of t) e k) s' r in
      let (own', b) =
        let run = (h.running e x).0 in
        q.block_adds s.num_vcpu (view_of t) e k k' (h.inside e (λ y. ground arith)) own run
          called in
      let (fs, fn, fk, fst, fx) = leave_lem e v t k' in
      subst (Coherent m q) (sym is)
        (switched s k k' e v h x a own' b (leave m e v t k') fs fn fk fst fx)

  pub switch_step :
      (s : Pool S C) (k : S) (e v : ℕ)
      → s.exec_cpu ≡ some e
      → s.last_cpu ≡ some e
      → e ≢ v
      → vcpu_preemption m (some v) (record s { sched = k })
        ≡ switch_to m e v (record s { sched = k })
  unfolding vcpu_preemption
  switch_step s k e v x l o = ground arith

  idle_step :
      (s : Pool S C) (k : S) (v : ℕ)
      → s.exec_cpu ≡ none
      → vcpu_preemption m (some v) (record s { sched = k })
        ≡ some (vcpu_start m (some v) (record s { sched = k; started_vm = some (s.vm v) }))
  unfolding vcpu_preemption
  idle_step s k v x = ground arith

  pub stay_step :
      (s : Pool S C) (k : S)
      → vcpu_preemption m s.exec_cpu (record s { sched = k }) ≡ some (record s { sched = k })
  unfolding vcpu_preemption
  stay_step s k = elim (Option-cases s.exec_cpu) [
    | inl x ↦ ground arith
    | inr (e, x) ↦ ground (arith, ==_self e)
  ]

  Same-Coherent :
      (s : Pool S C) (k : S)
      → Coherent m q s
      → Owned s.num_vcpu s.sched_state k
      → Same count s.sched k
      → Coherent m q (record s { sched = k })
  Same-Coherent s k h own same = record {
    inside = h.inside;
    owned = own;
    queued = λ w. same w ∙ h.queued w;
    running = h.running;
    alone = h.alone;
  }

  chosen :
      (s s' : Pool S C) (k : S) (v : ℕ)
      → Coherent m q s
      → Owned s.num_vcpu s.sched_state k
      → Adds count v k s.sched
      → vcpu_preemption m (some v) (record s { sched = k }) ≡ some s'
      → Coherent m q s'
  chosen s s' k v h own a r =
      let waits = queued_waits s k v h a in
      elim (Option-cases s.exec_cpu) [
        | inl x ↦
            let t : Pool S C = record s { sched = k; started_vm = some (s.vm v) } in
            let is : vcpu_start m (some v) t ≡ s' = cc (idle_step s k v x) in
            subst (Coherent m q) is (
              Entered-Coherent m q s t (vcpu_start m (some v) t) v h x a refl refl
                (enter-Entered m q v t own x (λ y. ground arith)))
        | inr (e, x) ↦
            let run = h.running e x in
            let apart : e ≢ v = λ same. ground arith in
            switch_to-Coherent s s' k e v h x own a (sym (switch_step s k e v x run.1 apart) ∙ r)
      ]

  -- Whatever the scheduler chooses, the states, the queue and the executing VCPU agree again.
  pub reschedule-Coherent :
      (s s' : Pool S C) → Coherent m q s → reschedule m s ≡ some s' → Coherent m q s'
  unfolding reschedule
  reschedule-Coherent s s' h r = elim (Option-cases (m.operations.schedule (view_of s) s.sched)) [
    | inl fault ↦ absurd (ground arith)
    | inr ((choice, k), called) ↦
        let (own, c) = q.schedule_chooses s.num_vcpu (view_of s) s.sched choice k h.owned called in
        let ran : vcpu_preemption m choice (record s { sched = k }) ≡ some s' = ground arith in
        elim c [
          | inl (v, is, a) ↦
              chosen s s' k v h own a
                (subst (λ z. vcpu_preemption m z (record s { sched = k }) ≡ some s') is ran)
          | inr (is, same) ↦
              let stays : record s { sched = k } ≡ s' =
                let same_run =
                  subst (λ z. vcpu_preemption m z (record s { sched = k }) ≡ some s') is ran in
                cc (stay_step s k) in
              subst (Coherent m q) stays (Same-Coherent s k h own same)
        ]
  ]

  exec_cpu-vcpu_start :
      (v : ℕ) (t : Pool S C)
      → t.exec_cpu ≡ none
      → t.state v ≡ VcpuState.wait
      → (vcpu_start m (some v) t).exec_cpu ≡ some v
  unfolding vcpu_start enter
  exec_cpu-vcpu_start v t x w = ground arith

  exec_cpu-take_over :
      (v : ℕ) (t : Pool S C)
      → t.exec_cpu ≡ none
      → t.state v ≡ VcpuState.wait
      → (take_over m v t).exec_cpu ≡ some v
  unfolding take_over
  exec_cpu-take_over v t x w = exec_cpu-vcpu_start v t x w

  exec_cpu-switch_to :
      (e v : ℕ) (t s' : Pool S C)
      → e ≢ v
      → t.state v ≡ VcpuState.wait
      → switch_to m e v t ≡ some s'
      → s'.exec_cpu ≡ some v
  unfolding switch_to vcpu_save_state
  exec_cpu-switch_to e v t s' apart w r =
      let u = vcpu_save_state m e t in
      let (k, called, is) =
        map-some (λ z. take_over m v (leave m e v u z)) (m.operations.block (view_of u) e u.sched)
          s' r in
      let (fs, fn, fk, fst, fx) = leave_lem e v u k in
      let waits = ap (λ (f : ℕ → VcpuState). f v) fst ∙ rw (==_of_ne e v apart) w in
      ap (λ (z : Pool S C). z.exec_cpu) is ∙ exec_cpu-take_over v (leave m e v u k) fx waits

  exec_cpu-vcpu_preemption :
      (s s' : Pool S C) (k : S) (choice : Option ℕ)
      → Coherent m q s
      → Chooses count s.exec_cpu s.sched choice k
      → vcpu_preemption m choice (record s { sched = k }) ≡ some s'
      → s'.exec_cpu ≡ choice
  exec_cpu-vcpu_preemption s s' k choice h (inl (v, is, a)) r =
      let waits = queued_waits s k v h a in
      let r' = subst (λ z. vcpu_preemption m z (record s { sched = k }) ≡ some s') is r in
      elim (Option-cases s.exec_cpu) [
        | inl x ↦
            let t : Pool S C = record s { sched = k; started_vm = some (s.vm v) } in
            let same : vcpu_start m (some v) t ≡ s' = cc (idle_step s k v x) in
            ap (λ (z : Pool S C). z.exec_cpu) (sym same) ∙ exec_cpu-vcpu_start v t x waits ∙ sym is
        | inr (e, x) ↦
            let (starts, last) = h.running e x in
            let apart : e ≢ v = λ same. ground arith in
            exec_cpu-switch_to e v (record s { sched = k }) s' apart waits
              (sym (switch_step s k e v x last apart) ∙ r')
            ∙ sym is
      ]
  exec_cpu-vcpu_preemption s s' k choice h (inr (is, same)) r =
      let r' = subst (λ z. vcpu_preemption m z (record s { sched = k }) ≡ some s') is r in
      let stays : record s { sched = k } ≡ s' = cc (stay_step s k) in
      ap (λ (z : Pool S C). z.exec_cpu) (sym stays) ∙ sym is

  -- What the scheduler chooses is executing behind the preemption.
  pub reschedule-Runs : (s s' : Pool S C) → Coherent m q s → reschedule m s ≡ some s' → Runs m s s'
  unfolding reschedule
  reschedule-Runs s s' h r = elim (Option-cases (m.operations.schedule (view_of s) s.sched)) [
    | inl fault ↦ absurd (ground arith)
    | inr ((choice, k), called) ↦
        let (own, c) = q.schedule_chooses s.num_vcpu (view_of s) s.sched choice k h.owned called in
        let ran : vcpu_preemption m choice (record s { sched = k }) ≡ some s' = ground arith in
        (choice, k, called, exec_cpu-vcpu_preemption s s' k choice h c ran)
  ]
