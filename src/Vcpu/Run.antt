-- ===== src/Vcpu/Run.antt =====
-- The runs of the hypervisor on the VCPUs of vcpu.c.
use t_visor.Prelude.{
  ℕ, ◌<◌, ◌≡◌, ==_self, inl, inr, Bool-cases, some, arith, ◌==◌, eq_of_==, ne_of_==,
}
use t_visor.TimerEvent.{put}
use t_visor.Schedule.{VcpuState}
use t_visor.Vcpu.{
  Pool, Machine, vcpu_ready, vcpu_off, vcpu_wakeup, vcpu_wakeup_by_timer, vcpu_sleep,
  vcpu_make_wait, reschedule,
}
use t_visor.Vcpu.Interface.{ReadyQueue}
use t_visor.Vcpu.Life.{
  Coherent, Joined-Coherent, unblock_Joined, vcpu_ready-Coherent, vcpu_wakeup-Coherent,
}
use t_visor.Vcpu.Switch.{vcpu_make_wait-Coherent, vcpu_sleep-Coherent}
use t_visor.Vcpu.Dispatch.{reschedule-Coherent}

-- One call of vcpu.c. A VCPU is woken while it sleeps, switches itself off (virtual_psci.c calls
-- vcpu_off for the executing one), and the clock goes on.
pub data Step {S C : Type 0} (m : Machine S C) (s s' : Pool S C) : Type 0 where
  ready : (v : ℕ) → v < s.num_vcpu → vcpu_ready m v s ≡ some s' → Step m s s'
  off : (v : ℕ) → s.exec_cpu ≡ some v → s' ≡ vcpu_off m v s → Step m s s'
  wake : (v : ℕ) → s.state v ≡ VcpuState.sleep → vcpu_wakeup m v s ≡ some s' → Step m s s'
  alarm : (v : ℕ) → s.state v ≡ VcpuState.sleep → vcpu_wakeup_by_timer m v s ≡ some s' → Step m s s'
  sleep : (v : ℕ) → vcpu_sleep m v s ≡ some s' → Step m s s'
  make_wait : (v : ℕ) → s' ≡ vcpu_make_wait m v s → Step m s s'
  choose : reschedule m s ≡ some s' → Step m s s'
  tick : (t : ℕ) → s' ≡ record s { now = t } → Step m s s'

pub data Reach {S C : Type 0} (m : Machine S C) (s : Pool S C) : Pool S C → Type 0 where
  here : Reach m s s
  next : {t u : Pool S C} → Reach m s t → Step m t u → Reach m s u

module _ {S C : Type 0} (m : Machine S C) (q : ReadyQueue m) where
  open q use {count, Owned}

  pub vcpu_off-Coherent :
      (v : ℕ) (s : Pool S C) → Coherent m q s → s.exec_cpu ≡ some v → Coherent m q (vcpu_off m v s)
  unfolding vcpu_off
  vcpu_off-Coherent v s h x =
      let run = h.running v x in
      record {
        inside = λ w a. ground (arith, h.inside w, eq_of_== v w, ==_self v);
        owned = ground (arith, h.owned, ==_self v);
        queued = λ w. elim (Bool-cases (v == w)) [
          | inl at ↦ ground (arith, h.queued w, eq_of_== v w at, ==_self v)
          | inr o ↦ ground (arith, h.queued w, ==_self v)
        ];
        running = λ e a. absurd (ground (arith, ==_self v));
        alone = λ w a. absurd (ground (arith, h.alone w, ne_of_== v w, ==_self v));
      }

  pub alarm-Coherent :
      (v : ℕ) (s s' : Pool S C)
      → Coherent m q s
      → s.state v ≡ VcpuState.sleep
      → vcpu_wakeup_by_timer m v s ≡ some s'
      → Coherent m q s'
  unfolding vcpu_wakeup_by_timer
  alarm-Coherent v s s' h i e =
      let t : Pool S C = record s { timer_event = put s.timer_event v 0 } in
      let h' : Coherent m q t = record {
        inside = h.inside;
        owned = h.owned;
        queued = h.queued;
        running = h.running;
        alone = h.alone;
      } in
      let b = h.inside v (λ a. ground arith) in
      Joined-Coherent m q t s' v h' b (ground arith) (λ a. ground (arith, h.running v a))
        (unblock_Joined m q t s' v h.owned b i e)

  Step-Coherent : (s s' : Pool S C) → Step m s s' → Coherent m q s → Coherent m q s'
  Step-Coherent s s' (ready v b e) h = vcpu_ready-Coherent m q v s s' h b e
  Step-Coherent s s' (off v x e) h = rw e (vcpu_off-Coherent v s h x)
  Step-Coherent s s' (wake v i e) h = vcpu_wakeup-Coherent m q v s s' h i e
  Step-Coherent s s' (alarm v i e) h = alarm-Coherent v s s' h i e
  Step-Coherent s s' (sleep v e) h = vcpu_sleep-Coherent m q v s s' h e
  Step-Coherent s s' (make_wait v e) h = rw e (vcpu_make_wait-Coherent m q v s h)
  Step-Coherent s s' (choose e) h = reschedule-Coherent m q s s' h e
  Step-Coherent s s' (tick t e) h = rw e (record {
    inside = h.inside;
    owned = h.owned;
    queued = h.queued;
    running = h.running;
    alone = h.alone;
  })

  -- Over a scheduler with the laws of a ready queue, in every run from a coherent pool, each
  -- waiting VCPU is in the ready queue exactly once, no other is in it, and at most the executing
  -- VCPU is in the state START.
  pub Reach-Coherent : {s s' : Pool S C} → Coherent m q s → Reach m s s' → Coherent m q s'
  Reach-Coherent h here = h
  Reach-Coherent h (next {t} {u} r st) = Step-Coherent t u st (Reach-Coherent h r)
