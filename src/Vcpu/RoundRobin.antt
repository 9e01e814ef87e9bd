-- ===== src/Vcpu/RoundRobin.antt =====
-- vcpu.c over my_scheduler.c and timer_event.c.
use mathlib.Core.Option
use t_visor.Prelude.{
  map-some, ℕ, ◌+◌, ◌<◌, ◌≡◌, refl, subst, false, Option, some, ◌==◌, if◌then◌else◌,
}
use t_visor.TimerEvent.{TimerState, timer_event_insert, timer_event_remove}
use t_visor.Schedule.{View, VcpuState, ScheduleOperations}
use t_visor.Schedule.RoundRobin
use t_visor.Schedule.RoundRobin.{RrState}
use t_visor.Schedule.RoundRobin.Ready.{
  owned_by, my_enque-adds, my_unblock-adds, my_schedule-chooses, my_yield-same, my_block_lem,
}
use t_visor.Vcpu.{Machine}
use t_visor.Vcpu.Interface.{ReadyQueue, Chooses, Adds, Same}

-- The number that stands for the callback `vcpu_wakeup_by_timer`.
abbrev pub wakeup_func : ℕ
wakeup_func = 2

-- Only the first component is the scheduler's.
abbrev pub on_first : {A B : Type 0} → A × B → A → A × B
on_first s a = (a, s.1)

-- The operations of my_scheduler.c leave the timer events alone.
abbrev pub operations : ScheduleOperations (RrState × TimerState)
operations = record {
  init = λ s. on_first s (RoundRobin.my_init s.0);
  schedule = λ view s. let (r, k) = RoundRobin.my_schedule view s.0 in some (r, on_first s k);
  yield = λ s. on_first s (RoundRobin.my_yield s.0);
  block = λ view v s. some (on_first s (RoundRobin.my_block view v s.0));
  unblock = λ view v s. some (on_first s (RoundRobin.my_unblock view v s.0));
  allocate = λ v s. let (slot, k) = RoundRobin.my_allocate v s.0 in (slot, on_first s k);
  enque = λ view v s. some (on_first s (RoundRobin.my_enque view v s.0));
}

module _ {C : Type 0} (reset_context : C → C) (vtctl vtcmp : C → ℕ) where
  abbrev pub rr_machine : Machine (RrState × TimerState) C
  rr_machine = record {
    operations = operations;
    clear_flag = λ s. on_first s (record (s.0) { flag = false });
    insert_event =
        λ t v s. Option.map (λ r. (r.0, (s.0, r.1))) (timer_event_insert s.1 t wakeup_func v);
    remove_event = λ e s. (s.0, timer_event_remove s.1 e);
    reset_context = reset_context;
    vtctl = vtctl;
    vtcmp = vtcmp;
  }

  open_slots :
      (n : ℕ) (slots : ℕ → ℕ) (f g : ℕ → ℕ)
      → g ≡ f
      → ((v : ℕ) → v < n → f (slots v) ≡ v)
      → (v : ℕ) → v < n
      → g (slots v) ≡ v
  open_slots n slots f g e own = rw e own

  abbrev pub Slots : ℕ → (ℕ → ℕ) → RrState × TimerState → Type 0
  Slots n slots s = (v : ℕ) → v < n → s.0.vcpu (slots v) ≡ v

  abbrev pub times : RrState × TimerState → ℕ → ℕ
  times s v = owned_by s.0.vcpu v s.0.wque

  pub schedule-Chooses :
      (n : ℕ) (view : View) (s : RrState × TimerState) (r : Option ℕ) (s' : RrState × TimerState)
      → Slots n view.sched_state s
      → operations.schedule view s ≡ some (r, s')
      → Slots n view.sched_state s' × Chooses times view.executing s r s'
  schedule-Chooses n view s r s' own e =
      let (vc, c) = my_schedule-chooses view s.0 in
      let is : (RoundRobin.my_schedule view s.0).0 ≡ r = cc in
      let next : on_first s (RoundRobin.my_schedule view s.0).1 ≡ s' = cc in
      subst (λ z. Slots n view.sched_state s' × Chooses times view.executing s z s') is
        (subst
          (λ z.
            Slots n view.sched_state z
            × Chooses times view.executing s (RoundRobin.my_schedule view s.0).0 z)
          next (open_slots n view.sched_state s.0.vcpu _ vc own, c))

  requeued :
      (n : ℕ) (slots : ℕ → ℕ) (v : ℕ) (s s' : RrState × TimerState) (k : RrState)
      → Slots n slots s
      → ((w : ℕ)
          → (k.vcpu ≡ s.0.vcpu)
            × (owned_by k.vcpu w k.wque ≡ times s w + (if v == w then 1 else 0)))
      → on_first s k ≡ s'
      → Slots n slots s' × Adds times v s s'
  requeued n slots v s s' k own adds is =
      rw (← is) (open_slots n slots s.0.vcpu k.vcpu (adds 0).0 own, λ w. (adds w).1)

  pub enque-Adds :
      (n : ℕ) (view : View) (v : ℕ) (s s' : RrState × TimerState)
      → v < n
      → Slots n view.sched_state s
      → operations.enque view v s ≡ some s'
      → Slots n view.sched_state s' × Adds times v s s'
  enque-Adds n view v s s' b own e =
      requeued n view.sched_state v s s' (RoundRobin.my_enque view v s.0) own
        (λ w. my_enque-adds view v s.0 w (own v b)) (cc)

  pub block-Adds :
      (n : ℕ) (view : View) (v : ℕ) (s s' : RrState × TimerState)
      → v < n
      → Slots n view.sched_state s
      → view.state v ≡ VcpuState.start
      → operations.block view v s ≡ some s'
      → Slots n view.sched_state s' × Adds times v s s'
  block-Adds n view v s s' b own i e =
      requeued n view.sched_state v s s' (RoundRobin.my_enque view v s.0) own
        (λ w. my_enque-adds view v s.0 w (own v b)) (cc (my_block_lem view v s.0))

  pub unblock-Adds :
      (n : ℕ) (view : View) (v : ℕ) (s s' : RrState × TimerState)
      → v < n
      → Slots n view.sched_state s
      → view.state v ≡ VcpuState.sleep
      → operations.unblock view v s ≡ some s'
      → Slots n view.sched_state s' × Adds times v s s'
  unblock-Adds n view v s s' b own i e =
      requeued n view.sched_state v s s' (RoundRobin.my_unblock view v s.0) own
        (λ w. my_unblock-adds view v s.0 w (own v b) i) (cc)

  pub yield-Same :
      (n : ℕ) (slots : ℕ → ℕ) (s : RrState × TimerState)
      → Slots n slots s
      → Slots n slots (operations.yield s) × Same times s (operations.yield s)
  yield-Same n slots s own =
      let (vc, wq) = my_yield-same s.0 in
      (open_slots n slots s.0.vcpu _ vc own, λ w. rw (vc, wq) refl)

  pub insert_event-Same :
      (n : ℕ) (slots : ℕ → ℕ) (t v : ℕ) (s : RrState × TimerState) (e : ℕ)
      (s' : RrState × TimerState)
      → Slots n slots s
      → rr_machine.insert_event t v s ≡ some (e, s')
      → Slots n slots s' × Same times s s'
  insert_event-Same n slots t v s e s' own i =
      let (r, called, is) = map-some _ (timer_event_insert s.1 t wakeup_func v) (e, s') i in
      let next : (s.0, r.1) ≡ s' = cc in rw (← next) (own, λ w. refl)

  -- The queue of my_scheduler.c is what vcpu.c needs.
  abbrev pub rr_queue : ReadyQueue rr_machine
  rr_queue = record {
    count = times;
    Owned = Slots;
    enque_adds = enque-Adds;
    block_adds = block-Adds;
    unblock_adds = unblock-Adds;
    schedule_chooses = schedule-Chooses;
    yield_same = yield-Same;
    clear_flag_same = λ n slots s own. (own, λ w. refl);
    insert_event_same = insert_event-Same;
    remove_event_same = λ n slots e s own. (own, λ w. refl);
  }
