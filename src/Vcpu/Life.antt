-- ===== src/Vcpu/Life.antt =====
-- The states of the VCPUs in vcpu.c, the ready queue and the executing VCPU agree.
use mathlib.Core.Option
use t_visor.Prelude.{
  map-some, ℕ, ◌+◌, ◌<◌, ◌≡◌, ◌≢◌, refl, inl, inr, Bool-cases, some, arith, ◌==◌, eq_of_==,
}
use t_visor.Schedule.{VcpuState}
use t_visor.Vcpu.{
  Pool, Machine, view_of, set_state, drop_event, vcpu_ready, vcpu_wakeup, unblock_wait,
}
use t_visor.Vcpu.Interface.{ReadyQueue, Adds, Same}

pub VcpuState-discrete : Discrete VcpuState
VcpuState-discrete = hlevel

-- How often a VCPU of this state is in the ready queue.
abbrev pub turns : VcpuState → ℕ
turns VcpuState.wait = 1
turns _ = 0

module _ {S C : Type 0} (m : Machine S C) (q : ReadyQueue m) where
  open q use {count, Owned}

  -- The waiting VCPUs are in the ready queue, once each, and no other is. The executing VCPU is in
  -- the state START, no other is, and it is the last one that was started.
  pub record Coherent (s : Pool S C) : Type 0 where
    pub inside : (v : ℕ) → s.state v ≢ VcpuState.init → v < s.num_vcpu
    pub owned : Owned s.num_vcpu s.sched_state s.sched
    pub queued : (v : ℕ) → count s.sched v ≡ turns (s.state v)
    pub running :
        (e : ℕ) → s.exec_cpu ≡ some e → (s.state e ≡ VcpuState.start) × (s.last_cpu ≡ some e)
    pub alone : (v : ℕ) → s.state v ≡ VcpuState.start → s.exec_cpu ≡ some v

  not_init :
      (s s' : Pool S C) (v : ℕ)
      → vcpu_ready m v s ≡ some s'
      → s.state v ≢ VcpuState.init
      → s' ≡ record s { aborts = s.aborts + 1 }
  unfolding vcpu_ready
  not_init s s' v e o = ground arith

  -- The VCPU `v`, which is not queued and does not run, was put into the queue.
  abbrev pub Joined : Pool S C → ℕ → Pool S C → Type 0
  Joined s v s' =
      Owned s'.num_vcpu s'.sched_state s'.sched
      × Adds count v s.sched s'.sched
      × (s'.num_vcpu ≡ s.num_vcpu)
      × (s'.state ≡ set_state s.state v VcpuState.wait)
      × (s'.exec_cpu ≡ s.exec_cpu)
      × (s'.last_cpu ≡ s.last_cpu)

  pub Joined-Coherent :
      (s s' : Pool S C) (v : ℕ)
      → Coherent s
      → v < s.num_vcpu
      → turns (s.state v) ≡ 0
      → s.exec_cpu ≢ some v
      → Joined s v s'
      → Coherent s'
  Joined-Coherent s s' v h b z o j = record {
    inside = λ w a. ground (arith, h.inside w, eq_of_== v w);
    owned = j.0;
    queued = λ w. elim (Bool-cases (v == w)) [
      | inl at ↦ ground (arith, j.1 w, h.queued w, eq_of_== v w at)
      | inr off ↦ ground (arith, j.1 w, h.queued w)
    ];
    running = λ e a. ground (arith, h.running e);
    alone = λ w a. ground (arith, h.alone w);
  }

  init_Joined :
      (s s' : Pool S C) (v : ℕ)
      → Coherent s
      → v < s.num_vcpu
      → s.state v ≡ VcpuState.init
      → vcpu_ready m v s ≡ some s'
      → Joined s v s'
  unfolding vcpu_ready
  init_Joined s s' v h b i e =
      let t : Pool S C = record s { state = set_state s.state v VcpuState.wait } in
      let ran : Option.map (λ k. record t { sched = k }) (m.operations.enque (view_of t) v t.sched)
          ≡ some s' =
        ground arith in
      let (k, called, is) = map-some _ _ s' ran in
      let (own, adds) = q.enque_adds s.num_vcpu (view_of t) v s.sched k b h.owned called in
      rw is (own, adds, refl, refl, refl, refl)

  -- vcpu_ready keeps the states and the queue in agreement, whatever the VCPU's state is.
  pub vcpu_ready-Coherent :
      (v : ℕ) (s s' : Pool S C)
      → Coherent s
      → v < s.num_vcpu
      → vcpu_ready m v s ≡ some s'
      → Coherent s'
  vcpu_ready-Coherent v s s' h b e = elim (VcpuState-discrete (s.state v) VcpuState.init) [
    | yes i ↦
        Joined-Coherent s s' v h b (ground arith) (λ a. ground (arith, h.running v a))
          (init_Joined s s' v h b i e)
    | no o ↦ rw (not_init s s' v e o) (record {
      inside = h.inside;
      owned = h.owned;
      queued = h.queued;
      running = h.running;
      alone = h.alone;
    })
  ]

  pub unblock_Joined :
      (s s' : Pool S C) (v : ℕ)
      → Owned s.num_vcpu s.sched_state s.sched
      → v < s.num_vcpu
      → s.state v ≡ VcpuState.sleep
      → unblock_wait m v s ≡ some s'
      → Joined s v s'
  unfolding unblock_wait
  unblock_Joined s s' v own b i e =
      let (k, called, is) = map-some _ _ s' e in
      let (own', adds) = q.unblock_adds s.num_vcpu (view_of s) v s.sched k b own i called in
      rw is (own', adds, refl, refl, refl, refl)

  -- What dropping a timer event leaves as it is.
  abbrev pub Dropped : Pool S C → Pool S C → Type 0
  Dropped s t =
      Owned t.num_vcpu t.sched_state t.sched
      × Same count s.sched t.sched
      × (t.num_vcpu ≡ s.num_vcpu)
      × (t.state ≡ s.state)
      × (t.exec_cpu ≡ s.exec_cpu)
      × (t.last_cpu ≡ s.last_cpu)

  pub drop_event-Dropped :
      (v : ℕ) (s : Pool S C) → Owned s.num_vcpu s.sched_state s.sched → Dropped s (drop_event m v s)
  unfolding drop_event
  drop_event-Dropped v s own = elim (Bool-cases (s.timer_event v == 0)) [
    | inl none_set ↦ rw none_set (own, λ w. refl, refl, refl, refl, refl)
    | inr set ↦
        let (own', same) =
          q.remove_event_same s.num_vcpu s.sched_state (s.timer_event v) s.sched own in
        rw set (own', same, refl, refl, refl, refl)
  ]

  Dropped-Coherent : (s t : Pool S C) → Coherent s → Dropped s t → Coherent t
  Dropped-Coherent s t h d = record {
    inside = λ w a. ground (arith, h.inside w);
    owned = d.0;
    queued = λ w. ground (arith, d.1 w, h.queued w);
    running = λ e a. ground (arith, h.running e);
    alone = λ w a. ground (arith, h.alone w);
  }

  -- Waking a sleeping VCPU puts it into the queue.
  pub vcpu_wakeup-Coherent :
      (v : ℕ) (s s' : Pool S C)
      → Coherent s
      → s.state v ≡ VcpuState.sleep
      → vcpu_wakeup m v s ≡ some s'
      → Coherent s'
  unfolding vcpu_wakeup
  vcpu_wakeup-Coherent v s s' h i e =
      let t = drop_event m v s in
      let d = drop_event-Dropped v s h.owned in
      let h' = Dropped-Coherent s t h d in
      let i' : t.state v ≡ VcpuState.sleep = rw (d.3) i in
      let b = h'.inside v (λ a. ground arith) in
      Joined-Coherent t s' v h' b (ground arith) (λ a. ground (arith, h'.running v a))
        (unblock_Joined t s' v h'.owned b i' e)
