-- ===== src/Vcpu.antt =====
-- The life cycle of the VCPUs in vcpu.c, over a scheduler. A VCPU is its number in the pool
-- `t_vcpu`. What vcpu_start and vcpu_save_state copy between the machine and a VCPU, register by
-- register, is one value, the context. `none` is a fault.
pub mod Context
pub mod Interface
pub mod Life
pub mod Switch
pub mod Dispatch
pub mod Run
pub mod RoundRobin
pub mod Turns
mod Tests
use mathlib.Core.Option
use t_visor.Prelude.{ℕ, ◌+◌, ◌%◌, ◌^◌, Bool, true, false, Option, none, some, ◌==◌, if◌then◌else◌}
use t_visor.Schedule.{VcpuState, View, ScheduleOperations}
use t_visor.TimerEvent.{put}

pub record Pool (S C : Type 0) : Type 0 where
  pub num_vcpu : ℕ
  pub state : ℕ → VcpuState
  pub exec_cpu : Option ℕ
  pub last_cpu : Option ℕ
  pub sched_state : ℕ → ℕ
  -- The pending event of a VCPU, or 0 for NULL.
  pub timer_event : ℕ → ℕ
  pub vtoff : ℕ → ℕ
  -- The number of its VM.
  pub vm : ℕ → ℕ
  -- The saved context of each VCPU, and that of the machine.
  pub saved : ℕ → C
  pub machine : C
  -- The VM whose `hcr` vm_start wrote last; vm_stop writes nothing.
  pub started_vm : Option ℕ
  -- The state of the scheduler and of timer_event.c.
  pub sched : S
  -- What `ptimer_get_value` gives.
  pub now : ℕ
  pub aborts : ℕ

-- What vcpu.c calls besides the scheduler: timer_event.c, `scheduler_clear_flag`, what vcpu_reset
-- does to a context, and the fields `vtctl` and `vtcmp` of one.
pub record Machine (S C : Type 0) : Type 0 where
  pub operations : ScheduleOperations S
  pub clear_flag : S → S
  -- The time and the VCPU whose `vcpu_wakeup_by_timer` is the callback.
  pub insert_event : ℕ → ℕ → S → Option (ℕ × S)
  pub remove_event : ℕ → S → S
  pub reset_context : C → C
  pub vtctl : C → ℕ
  pub vtcmp : C → ℕ

abbrev pub set_state : (ℕ → VcpuState) → ℕ → VcpuState → ℕ → VcpuState
set_state f i x j = if i == j then x else f j

abbrev pub put_context : {C : Type 0} → (ℕ → C) → ℕ → C → ℕ → C
put_context f i x j = if i == j then x else f j

abbrev pub view_of : {S C : Type 0} → Pool S C → View
view_of s = record {
  executing = s.exec_cpu;
  state = s.state;
  sched_state = s.sched_state;
  now = s.now;
}

module _ {S C : Type 0} (m : Machine S C) where
  open m use {operations, clear_flag, insert_event, remove_event, reset_context, vtctl, vtcmp}

  abbrev abort : Pool S C → Pool S C
  abort s = record s { aborts = s.aborts + 1 }

  abbrev set_sched : Pool S C → S → Pool S C
  set_sched s k = record s { sched = k }

  -- `if(vcpu->timer_event) { timer_event_remove(vcpu->timer_event); vcpu->timer_event = NULL; }`
  pub drop_event : ℕ → Pool S C → Pool S C
  drop_event v s = if s.timer_event v == 0 then s else record s {
    sched = remove_event (s.timer_event v) s.sched;
    timer_event = put s.timer_event v 0;
  }

  pub vcpu_save_state : ℕ → Pool S C → Pool S C
  vcpu_save_state v s = record s { saved = put_context s.saved v s.machine }

  -- `vm_start` and `vm_stop` of vm.c.
  abbrev vm_start : ℕ → Pool S C → Pool S C
  vm_start i s = record s { started_vm = some i }

  abbrev vm_stop : ℕ → Pool S C → Pool S C
  vm_stop i s = s

  unfoldable pub vcpu_ready : ℕ → Pool S C → Option (Pool S C)
  vcpu_ready v s = elim (s.state v) [
    | VcpuState.init ↦
        let t = record s { state = set_state s.state v VcpuState.wait } in
        Option.map (set_sched t) (operations.enque (view_of t) v t.sched)
    | _ ↦ some (abort s)
  ]

  -- The second half of `vcpu_start`, behind its guards.
  pub enter : ℕ → Pool S C → Pool S C
  unfolding drop_event
  enter v s =
      let t =
        drop_event v
          (record s { state = set_state s.state v VcpuState.start; machine = s.saved v }) in
      record t { exec_cpu = some v; last_cpu = some v }

  -- It goes on after the first message.
  pub vcpu_start : Option ℕ → Pool S C → Pool S C
  unfolding enter
  vcpu_start vcpu s =
      let t : Pool S C = elim s.exec_cpu [ none ↦ s | some e ↦ abort s ] in
      elim vcpu [
        | none ↦ t
        | some v ↦ elim (s.state v) [ VcpuState.start ↦ abort t | _ ↦ enter v t ]
      ]

  pub vcpu_stop : Pool S C → Pool S C
  vcpu_stop s = record s { exec_cpu = none }

  pub vcpu_off : ℕ → Pool S C → Pool S C
  vcpu_off v s =
      let off = record s { state = set_state s.state v VcpuState.init } in
      elim s.exec_cpu [
        | none ↦ off
        | some e ↦ if v == e then record off { exec_cpu = none } else off
      ]

  unfoldable pub vcpu_reset : ℕ → Pool S C → Pool S C
  vcpu_reset v s =
      let (slot, k) = operations.allocate v s.sched in
      record s {
        state = set_state s.state v VcpuState.init;
        saved = put_context s.saved v (reset_context (s.saved v));
        sched_state = put s.sched_state v slot;
        sched = k;
      }

  -- `unblock`, and the state behind it.
  pub unblock_wait : ℕ → Pool S C → Option (Pool S C)
  unblock_wait v s =
      Option.map (λ k. record s { sched = k; state = set_state s.state v VcpuState.wait })
        (operations.unblock (view_of s) v s.sched)

  pub vcpu_wakeup : ℕ → Pool S C → Option (Pool S C)
  unfolding drop_event unblock_wait
  vcpu_wakeup v s = unblock_wait v (drop_event v s)

  pub vcpu_wakeup_by_timer : ℕ → Pool S C → Option (Pool S C)
  unfolding unblock_wait
  vcpu_wakeup_by_timer v s = unblock_wait v (record s { timer_event = put s.timer_event v 0 })

  -- `exec_cpu==vcpu`.
  abbrev is_executing : Pool S C → ℕ → Bool
  is_executing s v = elim s.exec_cpu [ none ↦ false | some e ↦ e == v ]

  -- What vcpu_sleep and vcpu_make_wait share: the context is saved, and the scheduler yields.
  pub fall_asleep : ℕ → Pool S C → Pool S C
  unfolding vcpu_save_state
  fall_asleep v s =
      let t = vcpu_save_state v s in
      record t { sched = operations.yield t.sched; state = set_state t.state v VcpuState.sleep }

  -- The end of `vcpu_sleep`: an event wakes the VCPU if its virtual timer is on and not masked.
  pub set_alarm : ℕ → Pool S C → Option (Pool S C)
  set_alarm v t =
      if vtctl (t.saved v) % 8 == 5
      then Option.map
          (λ r. record t { timer_event = put t.timer_event v r.0; sched = r.1; exec_cpu = none })
          (insert_event ((vtcmp (t.saved v) + t.vtoff v) % 2 ^ 64) v t.sched)
      else some (record t { exec_cpu = none })

  pub vcpu_sleep : ℕ → Pool S C → Option (Pool S C)
  unfolding fall_asleep set_alarm
  vcpu_sleep v s = if is_executing s v then set_alarm v (fall_asleep v s) else some (abort s)

  pub vcpu_make_wait : ℕ → Pool S C → Pool S C
  unfolding fall_asleep
  vcpu_make_wait v s =
      if is_executing s v then record (fall_asleep v s) { exec_cpu = none } else abort s

  -- The part of `vcpu_preemption` between `block`, which gave `k`, and `vcpu_start`: `exe` leaves,
  -- and the VM of `v` starts if it is another one.
  pub leave : ℕ → ℕ → Pool S C → S → Pool S C
  leave exe v t k =
      let u = record t { sched = k } in
      let x = if u.vm exe == u.vm v then u else vm_start (u.vm v) (vm_stop (u.vm exe) u) in
      record x { state = set_state x.state exe VcpuState.wait; exec_cpu = none }

  -- `vcpu_start(vcpu); scheduler_clear_flag();`
  pub take_over : ℕ → Pool S C → Pool S C
  unfolding vcpu_start
  take_over v t = let y = vcpu_start (some v) t in record y { sched = clear_flag y.sched }

  -- The end of `vcpu_preemption`: `exe` makes way for `v`.
  pub switch_to : ℕ → ℕ → Pool S C → Option (Pool S C)
  unfolding vcpu_save_state leave take_over
  switch_to exe v s =
      let t = vcpu_save_state exe s in
      Option.map (λ k. take_over v (leave exe v t k)) (operations.block (view_of t) exe t.sched)

  pub vcpu_preemption : Option ℕ → Pool S C → Option (Pool S C)
  unfolding switch_to vcpu_start
  vcpu_preemption none s = some (record s { exec_cpu = none })
  vcpu_preemption (some v) s = elim s.exec_cpu [
    | none ↦ some (vcpu_start (some v) (vm_start (s.vm v) s))
    | some exe ↦ if exe == v then some s else elim s.last_cpu [
      | none ↦ switch_to exe v s
      | some l ↦ if l == v then some (record s { exec_cpu = some v }) else switch_to exe v s
    ]
  ]

  -- `vcpu_preemption(scheduler_get_operations()->schedule())`, as irq_handler, hyp_call and
  -- system_init call it.
  pub reschedule : Pool S C → Option (Pool S C)
  unfolding vcpu_preemption
  reschedule s = elim (operations.schedule (view_of s) s.sched) [
    | none ↦ none
    | some (r, k) ↦ vcpu_preemption r (record s { sched = k })
  ]
