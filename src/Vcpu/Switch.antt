-- ===== src/Vcpu/Switch.antt =====
-- The executing VCPU of vcpu.c sleeps, or makes way for another.
use t_visor.Prelude.{
  map-some, ℕ, ◌+◌, ◌%◌, ◌≡◌, ◌≢◌, refl, ◌∙◌, inl, inr, true, Bool-cases, none, some, Option-cases,
  arith, ◌==◌, eq_of_==, ne_of_==, ==_self,
}
use t_visor.Schedule.{VcpuState}
use t_visor.Vcpu.{
  Pool, Machine, set_state, drop_event, enter, vcpu_start, vcpu_save_state, fall_asleep, set_alarm,
  vcpu_sleep, vcpu_make_wait, is_executing,
}
use t_visor.Vcpu.Interface.{ReadyQueue, Adds, Same}
use t_visor.Vcpu.Life.{Coherent, drop_event-Dropped}

module _ {S C : Type 0} (m : Machine S C) (q : ReadyQueue m) where
  open q use {count, Owned}

  -- The executing VCPU `v` left the machine, and is not queued.
  abbrev pub Left : Pool S C → ℕ → Pool S C → Type 0
  Left s v s' =
      Owned s'.num_vcpu s'.sched_state s'.sched
      × Same count s.sched s'.sched
      × (s'.num_vcpu ≡ s.num_vcpu)
      × (s'.state ≡ set_state s.state v VcpuState.sleep)
      × (s'.exec_cpu ≡ none)

  Left-Coherent :
      (s s' : Pool S C) (v : ℕ)
      → Coherent m q s
      → s.exec_cpu ≡ some v
      → Left s v s'
      → Coherent m q s'
  Left-Coherent s s' v h x l =
      let run = h.running v x in
      record {
        inside = λ w a. ground (arith, h.inside w, eq_of_== v w);
        owned = l.0;
        queued = λ w. elim (Bool-cases (v == w)) [
          | inl at ↦ ground (arith, l.1 w, h.queued w, eq_of_== v w at)
          | inr off ↦ ground (arith, l.1 w, h.queued w)
        ];
        running = λ e a. ground arith;
        alone = λ w a. absurd (ground (arith, h.alone w));
      }

  executing_is : (s : Pool S C) (v : ℕ) → is_executing m s v ≡ true → s.exec_cpu ≡ some v
  executing_is s v x = elim (Option-cases s.exec_cpu) [
    | inl e ↦ absurd (ground arith)
    | inr (w, e) ↦ ground (arith, eq_of_== w v)
  ]

  abort-Coherent :
      (s : Pool S C) → Coherent m q s → Coherent m q (record s { aborts = s.aborts + 1 })
  abort-Coherent s h = record {
    inside = h.inside;
    owned = h.owned;
    queued = h.queued;
    running = h.running;
    alone = h.alone;
  }

  -- A VCPU that waits for another one sleeps; only the executing one can.
  pub vcpu_make_wait-Coherent :
      (v : ℕ) (s : Pool S C) → Coherent m q s → Coherent m q (vcpu_make_wait m v s)
  unfolding vcpu_make_wait fall_asleep vcpu_save_state
  vcpu_make_wait-Coherent v s h = elim (Bool-cases (is_executing m s v)) [
    | inl x ↦
        let (own, same) = q.yield_same s.num_vcpu s.sched_state s.sched h.owned in
        rw x (Left-Coherent s _ v h (executing_is s v x) (own, same, refl, refl, refl))
    | inr o ↦ rw o (abort-Coherent s h)
  ]

  set_alarm_leaves :
      (v : ℕ) (t s' : Pool S C)
      → Owned t.num_vcpu t.sched_state t.sched
      → set_alarm m v t ≡ some s'
      → Owned s'.num_vcpu s'.sched_state s'.sched
        × Same count t.sched s'.sched
        × (s'.num_vcpu ≡ t.num_vcpu)
        × (s'.state ≡ t.state)
        × (s'.exec_cpu ≡ none)
  unfolding set_alarm
  set_alarm_leaves v t s' own e = elim (Bool-cases (m.vtctl (t.saved v) % 8 == 5)) [
    | inr off ↦
        let is : s' ≡ record t { exec_cpu = none } = ground arith in
        rw is (own, λ w. refl, refl, refl, refl)
    | inl on ↦
        let (r, called, is) = map-some _ _ s' (rw on at e) in
        let (own', same) =
          q.insert_event_same t.num_vcpu t.sched_state _ v t.sched r.0 r.1 own called in
        rw is (own', same, refl, refl, refl)
  ]

  -- So does vcpu_sleep, with or without an event that wakes it.
  pub vcpu_sleep-Coherent :
      (v : ℕ) (s s' : Pool S C) → Coherent m q s → vcpu_sleep m v s ≡ some s' → Coherent m q s'
  unfolding vcpu_sleep fall_asleep vcpu_save_state
  vcpu_sleep-Coherent v s s' h e = elim (Bool-cases (is_executing m s v)) [
    | inr o ↦
        let is : s' ≡ record s { aborts = s.aborts + 1 } = ground arith in
        rw is (abort-Coherent s h)
    | inl x ↦
        let (own, same) = q.yield_same s.num_vcpu s.sched_state s.sched h.owned in
        let (own', same', nv, st, gone) =
          set_alarm_leaves v (fall_asleep m v s) s' own (rw x at e) in
        Left-Coherent s s' v h (executing_is s v x) (own', λ w. same' w ∙ same w, nv, st, gone)
  ]

  -- `v` runs, and was taken out of the queue.
  abbrev pub Entered : Pool S C → ℕ → Pool S C → Type 0
  Entered s v s' =
      Owned s'.num_vcpu s'.sched_state s'.sched
      × Same count s.sched s'.sched
      × (s'.num_vcpu ≡ s.num_vcpu)
      × (s'.state ≡ set_state s.state v VcpuState.start)
      × (s'.exec_cpu ≡ some v)
      × (s'.last_cpu ≡ some v)

  pub enter-Entered :
      (v : ℕ) (s : Pool S C)
      → Owned s.num_vcpu s.sched_state s.sched
      → s.exec_cpu ≡ none
      → s.state v ≢ VcpuState.start
      → Entered s v (vcpu_start m (some v) s)
  unfolding vcpu_start enter
  enter-Entered v s own x o =
      let t : Pool S C = record s {
        state = set_state s.state v VcpuState.start;
        machine = s.saved v;
      } in
      let d = drop_event-Dropped m q v t own in
      let is : vcpu_start m (some v) s
          ≡ record (drop_event m v t) { exec_cpu = some v; last_cpu = some v } =
        ground arith in
      rw is (d.0, d.1, d.2, d.3, refl, refl)

  -- The machine was idle, and a VCPU from the queue runs.
  pub Entered-Coherent :
      (s t s' : Pool S C) (v : ℕ)
      → Coherent m q s
      → s.exec_cpu ≡ none
      → Adds count v t.sched s.sched
      → t.num_vcpu ≡ s.num_vcpu
      → t.state ≡ s.state
      → Entered t v s'
      → Coherent m q s'
  Entered-Coherent s t s' v h x a nv st n = record {
    inside =
        λ w y. ground (arith, h.inside w, h.inside v, eq_of_== v w, a v, h.queued v, ==_self v);
    owned = n.0;
    queued = λ w. elim (Bool-cases (v == w)) [
      | inl at ↦ ground (arith, n.1 w, a w, h.queued w, eq_of_== v w at)
      | inr off ↦ ground (arith, n.1 w, a w, h.queued w)
    ];
    running = λ e y. ground (arith, ==_self v);
    alone = λ w y. elim (Bool-cases (v == w)) [
      | inl at ↦ ground (arith, eq_of_== v w at)
      | inr off ↦ absurd (ground (arith, h.alone w))
    ];
  }

  -- Another VCPU ran, which was put into the queue.
  pub Switched-Coherent :
      (s t s' : Pool S C) (k : S) (e v : ℕ)
      → Coherent m q s
      → s.exec_cpu ≡ some e
      → Adds count v k s.sched
      → Adds count e k t.sched
      → t.num_vcpu ≡ s.num_vcpu
      → t.state ≡ set_state s.state e VcpuState.wait
      → Entered t v s'
      → Coherent m q s'
  Switched-Coherent s t s' k e v h x a b nv st n =
      let run = h.running e x in
      let apart : e ≢ v = λ same. ground (arith, a v, h.queued v, ==_self v) in
      record {
        inside = λ w y. ground (
          arith,
          h.inside w,
          h.inside v,
          h.inside e,
          eq_of_== v w,
          eq_of_== e w,
          a v,
          h.queued v,
          ==_self v,
        );
        owned = n.0;
        queued = λ w. elim (Bool-cases (v == w)) [
          | inl at ↦ ground (arith, n.1 w, a w, b w, h.queued w, eq_of_== v w at)
          | inr off ↦ elim (Bool-cases (e == w)) [
            | inl ate ↦ ground (arith, n.1 w, a w, b w, h.queued w, eq_of_== e w ate)
            | inr offe ↦ ground (arith, n.1 w, a w, b w, h.queued w)
          ]
        ];
        running = λ i y. ground (arith, ==_self v);
        alone = λ w y. elim (Bool-cases (v == w)) [
          | inl at ↦ ground (arith, eq_of_== v w at)
          | inr off ↦ elim (Bool-cases (e == w)) [
            | inl ate ↦ absurd (ground arith)
            | inr offe ↦ absurd (ground (arith, h.alone w, ne_of_== e w offe))
          ]
        ];
      }
