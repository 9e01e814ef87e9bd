-- ===== src/Psci/Laws.antt =====
-- The PSCI calls of virtual_psci.c keep the VCPUs and the ready queue in agreement.
use t_visor.Prelude.{
  ℕ, ◌+◌, ◌≤◌, ◌<◌, ◌%◌, ◌≡◌, ◌⊎◌, refl, sym, ap, subst, Option-cases, Bool-cases, inl, inr, some,
  map-some, arith, leb, ◌==◌, eq_of_==,
}
use t_visor.TimerEvent.{put}
use t_visor.Schedule.{VcpuState}
use t_visor.Vcpu.{Pool, Machine, put_context, vcpu_ready, vcpu_off, vcpu_reset}
use t_visor.Vcpu.Context.{Context, boot}
use t_visor.Vcpu.Interface.{ReadyQueue, Same}
use t_visor.Vcpu.Life.{Coherent, VcpuState-discrete, vcpu_ready-Coherent}
use t_visor.Vcpu.Run.{vcpu_off-Coherent}
use t_visor.Psci.{
  VmTable, fn_cpu_suspend, fn_cpu_off, fn_cpu_on, virtual_psci, virtual_psci_cpu_on,
  virtual_psci_cpu_off, virtual_psci_cpu_suspend, start_on,
}

in_pool : (a k b n : ℕ) → k < b → a + b ≤ n → a + k < n
in_pool a k b n x y = omega arith

module _ {S : Type 0} (m : Machine S Context) (q : ReadyQueue m) (vms : VmTable) where
  open q use {count, Owned}

  -- The scheduler gives the VCPU `v` a slot that no other one has, and leaves its queue alone.
  abbrev pub Allocates : ℕ → Pool S Context → Type 0
  Allocates v s =
      Owned s.num_vcpu (put s.sched_state v (m.operations.allocate v s.sched).0)
        (m.operations.allocate v s.sched).1
      × Same count s.sched (m.operations.allocate v s.sched).1

  -- The VCPUs of a VM are in the pool.
  abbrev pub InPool : Pool S Context → Type 0
  InPool s = (vm : ℕ) → vms.vcpus vm + vms.vcpu_num vm ≤ s.num_vcpu

  reset-Coherent :
      (v : ℕ) (s : Pool S Context)
      → Coherent m q s
      → s.state v ≡ VcpuState.init
      → Allocates v s
      → Coherent m q (vcpu_reset m v s)
  unfolding vcpu_reset
  reset-Coherent v s h i (own, same) = record {
    inside = λ w a. ground (arith, h.inside w);
    owned = own;
    queued = λ w. elim (Bool-cases (v == w)) [
      | inl at ↦ ground (arith, same w, h.queued w, eq_of_== v w at)
      | inr off ↦ ground (arith, same w, h.queued w)
    ];
    running = λ e a. elim (Bool-cases (v == e)) [
      | inl at ↦ absurd (ground (arith, h.running e a, eq_of_== v e at))
      | inr off ↦ ground (arith, h.running e a)
    ];
    alone = λ w a. ground (arith, h.alone w);
  }

  reset-num : (v : ℕ) (s : Pool S Context) → (vcpu_reset m v s).num_vcpu ≡ s.num_vcpu
  unfolding vcpu_reset
  reset-num v s = refl

  saved-Coherent :
      (f : ℕ → Context) (s : Pool S Context)
      → Coherent m q s
      → Coherent m q (record s { saved = f })
  saved-Coherent f s h = record {
    inside = h.inside;
    owned = h.owned;
    queued = h.queued;
    running = h.running;
    alone = h.alone;
  }

  aborts-Coherent :
      (n : ℕ) (s : Pool S Context) → Coherent m q s → Coherent m q (record s { aborts = n })
  aborts-Coherent n s h = record {
    inside = h.inside;
    owned = h.owned;
    queued = h.queued;
    running = h.running;
    alone = h.alone;
  }

  start_on-Coherent :
      (v address cid : ℕ) (s s' : Pool S Context) (r : ℕ)
      → Coherent m q s
      → v < s.num_vcpu
      → s.state v ≡ VcpuState.init
      → Allocates v s
      → start_on m vms v address cid s ≡ some (r, s')
      → Coherent m q s'
  unfolding start_on
  start_on-Coherent v address cid s s' r h b i a e =
      let t = vcpu_reset m v s in
      let x = record t { saved = put_context t.saved v (boot address cid (t.saved v)) } in
      let (u, called, is) = map-some (λ u. (0, u)) (vcpu_ready m v x) (r, s') e in
      let h' =
        saved-Coherent (put_context t.saved v (boot address cid (t.saved v))) t
          (reset-Coherent v s h i a) in
      let e' : u ≡ s' = sym (ap (λ z. z.1) is) in
      subst (Coherent m q) e' (vcpu_ready-Coherent m q v x u h' (rw (reset-num v s) b) called)

  -- `v` is the VCPU that the call names.
  abbrev named : ℕ → ℕ → Pool S Context → ℕ
  named e target s = vms.vcpus (s.vm e) + target % 4

  -- The call is refused, or it starts a VCPU of the pool that is in the state INIT.
  cpu_on_cases :
      (e target address cid : ℕ) (s s' : Pool S Context) (r : ℕ)
      → s.exec_cpu ≡ some e
      → virtual_psci_cpu_on m vms target address cid s ≡ some (r, s')
      → (s' ≡ record s { aborts = s.aborts + 1 })
        ⊎ ((s' ≡ s)
            ⊎ ((target % 4 < vms.vcpu_num (s.vm e))
                × (s.state (named e target s) ≡ VcpuState.init)
                × (start_on m vms (named e target s) address cid s ≡ some (r, s'))))
  unfolding virtual_psci_cpu_on
  cpu_on_cases e target address cid s s' r at c =
      elim (Bool-cases (leb (vms.vcpu_num (s.vm e)) (target % 4))) [
        | inl y ↦ inl (ground arith)
        | inr n ↦ elim (VcpuState-discrete (s.state (named e target s)) VcpuState.init) [
          | yes i ↦ inr (inr (ground arith, i, ground arith))
          | no o ↦ inr (inl (ground arith))
        ]
      ]

  cpu_on-Coherent :
      (target address cid : ℕ) (s s' : Pool S Context) (r : ℕ)
      → Coherent m q s
      → InPool s
      → ((v : ℕ) → s.state v ≡ VcpuState.init → Allocates v s)
      → virtual_psci_cpu_on m vms target address cid s ≡ some (r, s')
      → Coherent m q s'
  unfolding virtual_psci_cpu_on
  cpu_on-Coherent target address cid s s' r h i a c = elim (Option-cases s.exec_cpu) [
    | inl off ↦ absurd (ground arith)
    | inr (e, at) ↦ elim (cpu_on_cases e target address cid s s' r at c) [
      | inl x ↦ rw x (aborts-Coherent (s.aborts + 1) s h)
      | inr (inl x) ↦ rw x h
      | inr (inr (b, o, x)) ↦
          let v = named e target s in
          start_on-Coherent v address cid s s' r h
            (in_pool (vms.vcpus (s.vm e)) (target % 4) _ _ b (i (s.vm e))) o (a v o) x
    ]
  ]

  cpu_off-Coherent :
      (s s' : Pool S Context) (r : ℕ)
      → Coherent m q s
      → virtual_psci_cpu_off m vms s ≡ some (r, s')
      → Coherent m q s'
  unfolding virtual_psci_cpu_off
  cpu_off-Coherent s s' r h c = elim (Option-cases s.exec_cpu) [
    | inl off ↦ absurd (ground arith)
    | inr (e, at) ↦
        let x : vcpu_off m e s ≡ s' = ground arith in
        subst (Coherent m q) x (vcpu_off-Coherent m q e s h at)
  ]

  -- A PSCI call of the executing VCPU that returns keeps the VCPUs and the ready queue in agreement:
  -- each waiting VCPU is in the queue exactly once, no other is, and at most the executing one is in
  -- the state START. The VCPUs of each VM are in the pool, and where the scheduler allocates a
  -- slot, it gives one that no other VCPU has.
  pub virtual_psci-Coherent :
      (reg : ℕ → ℕ) (s s' : Pool S Context) (r : ℕ)
      → Coherent m q s
      → InPool s
      → ((v : ℕ) → s.state v ≡ VcpuState.init → Allocates v s)
      → virtual_psci m vms reg s ≡ some (r, s')
      → Coherent m q s'
  unfolding virtual_psci virtual_psci_cpu_suspend
  virtual_psci-Coherent reg s s' r h i a c =
      let t : Pool S Context = record s { aborts = s.aborts + 1 } in
      let h' = aborts-Coherent (s.aborts + 1) s h in
      elim (Bool-cases (reg 0 == fn_cpu_suspend)) [
        | inl y ↦ let x : t ≡ s' = ground arith in subst (Coherent m q) x h'
        | inr n1 ↦ elim (Bool-cases (reg 0 == fn_cpu_off)) [
          | inl y ↦ cpu_off-Coherent t s' r h' (rw (n1, y) at c)
          | inr n2 ↦ elim (Bool-cases (reg 0 == fn_cpu_on)) [
            | inl y ↦ cpu_on-Coherent (reg 1) (reg 2) (reg 3) t s' r h' i a (rw (n1, n2, y) at c)
            | inr n3 ↦
                let x : record t { aborts = t.aborts + 1 } ≡ s' = ground arith in
                subst (Coherent m q) x (aborts-Coherent (t.aborts + 1) t h')
          ]
        ]
      ]
