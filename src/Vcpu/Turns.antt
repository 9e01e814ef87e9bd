-- ===== src/Vcpu/Turns.antt =====
-- Repeated preemptions of vcpu.c over my_scheduler.c.
use mathlib.Core.Option
use mathlib.Core.List.{append_assoc, append-nil}
use t_visor.Prelude.{
  sym, ◌∙◌, ap, refl, inl, inr, ℕ, zero, suc, ◌≡◌, ◌≢◌, true, Option, none, some, List, [], ◌∷◌,
  ◌++◌, map, arith, length, has, has-append, false, ◌==◌, ==_of_ne,
}
use t_visor.TimerEvent.{TimerState}
use t_visor.TimerEvent.Inv.{List-cases}
use t_visor.Schedule.{VcpuState, View}
use t_visor.Schedule.RoundRobin.{RrState, my_schedule, my_block}
use t_visor.Schedule.RoundRobin.Ready.{owned_by}
use t_visor.Vcpu.{
  Pool, Machine, view_of, vcpu_save_state, leave, take_over, vcpu_start, enter, drop_event,
  switch_to, reschedule,
}
use t_visor.Vcpu.Life.{Coherent}
use t_visor.Vcpu.Dispatch.{queued_waits, leave_lem, switch_step, stay_step, reschedule-Coherent}
use t_visor.Vcpu.RoundRobin.{rr_machine, rr_queue, on_first}

-- `n` calls of `vcpu_preemption(scheduler_get_operations()->schedule())`, and the VCPU that was
-- executing before each of them.
pub preemptions : {S C : Type 0} → Machine S C → ℕ → Pool S C → Option (List (Option ℕ) × Pool S C)
preemptions m zero s = some ([], s)
preemptions m (suc n) s = elim (reschedule m s) [
  | none ↦ none
  | some t ↦ Option.map (λ r. (s.exec_cpu ∷ r.0, r.1)) (preemptions m n t)
]

module _ {C : Type 0} (reset_context : C → C) (vtctl vtcmp : C → ℕ) where
  abbrev m : Machine (RrState × TimerState) C
  m = rr_machine reset_context vtctl vtcmp

  abbrev Agree : Pool (RrState × TimerState) C → Type 0
  Agree = Coherent m (rr_queue reset_context vtctl vtcmp)

  -- The slot of the executing VCPU, and those of the ready ones behind it.
  abbrev pub Ring : Pool (RrState × TimerState) C → List ℕ → Type 0
  Ring s xs = (e : ℕ) × (s.exec_cpu ≡ some e) × (s.sched_state e ∷ s.sched.0.wque ≡ xs)

  -- The slots are the `sched_state` of their owners.
  abbrev pub Own : Pool (RrState × TimerState) C → List ℕ → Type 0
  Own s xs = (q : ℕ) → has q xs ≡ true → s.sched_state (s.sched.0.vcpu q) ≡ q

  abbrev SameSlots : Pool (RrState × TimerState) C → Pool (RrState × TimerState) C → Type 0
  SameSlots s t = (t.sched_state ≡ s.sched_state) × (t.sched.0.vcpu ≡ s.sched.0.vcpu)

  take_over_lem :
      (v : ℕ) (u : Pool (RrState × TimerState) C)
      → u.exec_cpu ≡ none
      → u.state v ≡ VcpuState.wait
      → let t = take_over m v u in
        (t.exec_cpu ≡ some v)
        × (t.sched.0.wque ≡ u.sched.0.wque)
        × (t.sched.0.vcpu ≡ u.sched.0.vcpu)
        × (t.sched_state ≡ u.sched_state)
  unfolding take_over vcpu_start enter drop_event
  take_over_lem v u x w = ground arith

  my_block-wque :
      (view : View) (e : ℕ) (r : RrState)
      → view.executing ≡ some e
      → ((my_block view e r).wque ≡ r.wque ++ view.sched_state e ∷ [])
        × ((my_block view e r).vcpu ≡ r.vcpu)
  unfolding my_block
  my_block-wque view e r x = ground arith

  -- One preemption, where a VCPU is ready.
  switch :
      (s : Pool (RrState × TimerState) C) (e x : ℕ) (xs : List ℕ)
      → Agree s
      → s.exec_cpu ≡ some e
      → s.sched.0.wque ≡ x ∷ xs
      → (t : Pool (RrState × TimerState) C) × (reschedule m s ≡ some t)
        × (t.exec_cpu ≡ some (s.sched.0.vcpu x))
        × (t.sched.0.wque ≡ xs ++ s.sched_state e ∷ [])
        × (t.sched.0.vcpu ≡ s.sched.0.vcpu)
        × (t.sched_state ≡ s.sched_state)
  unfolding reschedule switch_to vcpu_save_state my_schedule my_block
  switch s e x xs h run w =
      let v = s.sched.0.vcpu x in
      let k : RrState × TimerState = on_first s.sched (record (s.sched.0) { wque = xs }) in
      let waits : s.state v ≡ VcpuState.wait =
        queued_waits m (rr_queue reset_context vtctl vtcmp) s k v h
          (λ z. omega (arith, ap (owned_by s.sched.0.vcpu z) w)) in
      let (starts, last) = h.running e run in
      let apart : e ≢ v = λ same. ground arith in
      let t = vcpu_save_state m e (record s { sched = k }) in
      let k' = on_first k (my_block (view_of t) e k.0) in
      let u = leave m e v t k' in
      let (fs, fn, fk, fst, fx) = leave_lem m (rr_queue reset_context vtctl vtcmp) e v t k' in
      let off : (e == v) ≡ false = ==_of_ne e v apart in
      let blocked = my_block-wque (view_of t) e k.0 run in
      let (ex, wq, vc, sl) =
        take_over_lem v u fx (ap (λ (f : ℕ → VcpuState). f v) fst ∙ rw off waits) in
      (
        take_over m v u,
        rw w (switch_step m (rr_queue reset_context vtctl vtcmp) s k e v run last apart),
        ex,
        wq ∙ ap (λ (z : RrState × TimerState). z.0.wque) fk ∙ blocked.0,
        vc ∙ ap (λ (z : RrState × TimerState). z.0.vcpu) fk ∙ blocked.1,
        sl ∙ fs,
      )

  my_schedule-nil :
      (view : View) (r : RrState) → r.wque ≡ [] → my_schedule view r ≡ (view.executing, r)
  unfolding my_schedule
  my_schedule-nil view r w = ground arith

  -- Where none is ready the executing VCPU goes on.
  stay : (s : Pool (RrState × TimerState) C) → s.sched.0.wque ≡ [] → reschedule m s ≡ some s
  unfolding reschedule
  stay s w =
      rw (my_schedule-nil (view_of s) s.sched.0 w)
        (stay_step m (rr_queue reset_context vtctl vtcmp) s s.sched)

  -- What one preemption gives: the first of the ring goes to its end.
  abbrev Stepped : Pool (RrState × TimerState) C → ℕ → List ℕ → Type 0
  Stepped s x rest =
      (t : Pool (RrState × TimerState) C) × (reschedule m s ≡ some t)
      × Ring t (rest ++ x ∷ [])
      × SameSlots s t
      × (s.exec_cpu ≡ some (s.sched.0.vcpu x))

  advance :
      (s : Pool (RrState × TimerState) C) (x : ℕ) (rest : List ℕ)
      → Agree s
      → Ring s (x ∷ rest)
      → Own s (x ∷ rest)
      → Stepped s x rest
  advance s x rest h (e, run, is) own =
      let slot : s.sched_state e ≡ x = ground arith in
      let queue : s.sched.0.wque ≡ rest = ground arith in
      let here : s.exec_cpu ≡ some (s.sched.0.vcpu x) =
        ground (arith, h.owned e (h.inside e (λ y. ground (arith, h.running e)))) in
      elim (List-cases rest) [
        | inl n ↦ (s, stay s (queue ∙ n), (e, run, ground arith), (refl, refl), here)
        | inr (q, qs, n) ↦
            let (t, ran, ex, wq, vc, sl) = switch s e q qs h run (queue ∙ n) in
            (t, ran, (s.sched.0.vcpu q, ex, ground (arith, own q)), (sl, vc), here)
      ]

  turn_before :
      (s u t : Pool (RrState × TimerState) C) (x : ℕ) (xs : List ℕ)
      → reschedule m s ≡ some u
      → preemptions m (length xs) u ≡ some (map (λ q. some (u.sched.0.vcpu q)) xs, t)
      → u.sched.0.vcpu ≡ s.sched.0.vcpu
      → s.exec_cpu ≡ some (s.sched.0.vcpu x)
      → preemptions m (suc (length xs)) s ≡ some (map (λ q. some (s.sched.0.vcpu q)) (x ∷ xs), t)
  unfolding preemptions
  turn_before s u t x xs ran rest vc exe = rw (ran, preemptions) (rw rest (rw (vc, exe) refl))

  -- As many preemptions as `xs` has slots turn the ring by them.
  spin :
      (xs ys : List ℕ) (s : Pool (RrState × TimerState) C)
      → Agree s
      → Ring s (xs ++ ys)
      → Own s (xs ++ ys)
      → (t : Pool (RrState × TimerState) C) × (preemptions m (length xs) s
          ≡ some (map (λ q. some (s.sched.0.vcpu q)) xs, t))
        × Ring t (ys ++ xs)
        × SameSlots s t
        × Agree t
  unfolding preemptions
  spin [] ys s h r own = (s, refl, rw (append-nil ys) r, (refl, refl), h)
  spin (x ∷ xs) ys s h r own =
      let (u, ran, turned, (sl, vc), exe) = advance s x (xs ++ ys) h r own in
      let next : Ring u (xs ++ (ys ++ x ∷ [])) = rw (← append_assoc xs ys (x ∷ [])) turned in
      let own' : Own u (xs ++ (ys ++ x ∷ [])) = λ q i. ground (
        arith,
        own q,
        has-append q xs (ys ++ x ∷ []),
        has-append q ys (x ∷ []),
        has-append q xs ys,
      ) in
      let (t, rest, ring, (sl', vc'), h') =
        spin xs (ys ++ x ∷ []) u
          (reschedule-Coherent m (rr_queue reset_context vtctl vtcmp) s u h ran) next own' in
      (
        t,
        turn_before s u t x xs ran rest vc exe,
        rw (← append_assoc ys (x ∷ []) xs) ring,
        (sl' ∙ sl, vc' ∙ vc),
        h',
      )

  -- Every VCPU has its turn. Where the VCPUs, the queue and the executing VCPU agree, and each slot in
  -- the queue is the one of its owner, as many preemptions as there are VCPUs that run or are ready give
  -- each of them one turn, the executing one first and the others in the order of the queue. None of the
  -- preemptions faults, and then the same VCPU is executing, and the queue is as before.
  pub preemptions-wque :
      (s : Pool (RrState × TimerState) C) (e : ℕ)
      → Agree s
      → s.exec_cpu ≡ some e
      → Own s s.sched.0.wque
      → (t : Pool (RrState × TimerState) C) × (preemptions m (suc (length s.sched.0.wque)) s
          ≡ some (some e ∷ map (λ q. some (s.sched.0.vcpu q)) s.sched.0.wque, t))
        × (t.exec_cpu ≡ some e)
        × (t.sched.0.wque ≡ s.sched.0.wque)
  preemptions-wque s e h run own =
      let slot : s.sched.0.vcpu (s.sched_state e) ≡ e =
        h.owned e (h.inside e (λ y. ground (arith, h.running e run))) in
      let ring = s.sched_state e ∷ s.sched.0.wque in
      let all : Own s (ring ++ []) =
        λ q i. ground (arith, own q, has-append q ring [], ap (λ (v : ℕ). s.sched_state v) slot) in
      let (t, ran, (e', run', is), (sl, vc), h') =
        spin ring [] s h (e, run, sym (append-nil ring)) all in
      let slot' : t.sched.0.vcpu (t.sched_state e') ≡ e' =
        h'.owned e' (h'.inside e' (λ y. ground (arith, h'.running e' run'))) in
      let same : e' ≡ e = ground arith in (t, rw slot at ran, run' ∙ ap some same, ground arith)
