-- ===== src/Vcpu/Tests.antt =====
-- Two VCPUs over my_scheduler.c, in the slots 1 and 2: the first one is made ready and runs.
use t_visor.Prelude.{
  ℕ, ◌*◌, ◌+◌, ◌-◌, ◌≡◌, refl, subst, Option, true, false, none, some, [], ◌∷◌, arith,
}
use t_visor.TimerEvent.{TimerState, put, htimer_clear, slots_from}
use t_visor.Schedule.{VcpuState}
use t_visor.Schedule.RoundRobin.{RrState, my_enque, my_unblock, my_yield, my_schedule}
use t_visor.Vcpu.{
  Pool, Machine, vcpu_ready, vcpu_start, enter, drop_event, vcpu_preemption, reschedule, set_state,
  put_context, vcpu_sleep, set_alarm, fall_asleep, vcpu_save_state, vcpu_wakeup_by_timer,
  unblock_wait,
}
use t_visor.Rbtree.{Heap, rbtree_search, search_from}
use t_visor.Rbtree.Shape.{Tree, leaf, node, Is}
use t_visor.IrqHandler.{
  Handlers, handler_comp, call_handler, preempt_if_flag, irq_handler, irq_handler-Coherent, Calls,
  call_handler-Calls, Preempts,
}
use t_visor.Vcpu.Life.{Coherent, VcpuState-discrete}
use t_visor.Vcpu.Turns.{preemptions, preemptions-wque}
use t_visor.Vcpu.Run.{Reach-Coherent, alarm-Coherent, here, next, ready, choose, sleep}
use t_visor.Vcpu.RoundRobin.{rr_machine, rr_queue}

abbrev id : ℕ → ℕ
id n = n

abbrev m : Machine (RrState × TimerState) ℕ
m = rr_machine id id id

abbrev fresh : Pool (RrState × TimerState) ℕ
fresh = record {
  num_vcpu = 2;
  state = λ v. VcpuState.init;
  exec_cpu = none;
  last_cpu = none;
  sched_state = λ v. v + 1;
  timer_event = λ v. 0;
  vtoff = λ v. 0;
  vm = λ v. 0;
  saved = λ v. 0;
  machine = 0;
  started_vm = none;
  sched = (
    record { wque = []; fque = slots_from 3 14; vcpu = λ q. q - 1; flag = false; aborts = 0 },
    record {
      func = id;
      arg = id;
      time = id;
      fl = slots_from 1 16;
      el = [];
      htimer = htimer_clear 0;
      leftover = λ n. n;
      aborts = 0;
    },
  );
  now = 0;
  aborts = 0;
}

fresh-Coherent : Coherent m (rr_queue id id id) fresh
fresh-Coherent = record {
  inside = λ v h. absurd (h refl);
  owned = λ v h. omega arith;
  queued = λ v. refl;
  running = λ e x. cc;
  alone = λ v x. cc;
}

-- With VCPU 0 in the queue, and the flag set.
abbrev waiting : Pool (RrState × TimerState) ℕ
waiting = record fresh {
  state = set_state fresh.state 0 VcpuState.wait;
  sched = (record (fresh.sched.0) { wque = 1 ∷ []; flag = true }, fresh.sched.1);
}

made_ready : vcpu_ready m 0 fresh ≡ some waiting
unfolding vcpu_ready my_enque
made_ready = refl

-- It runs.
abbrev running : Pool (RrState × TimerState) ℕ
running = record waiting {
  state = set_state waiting.state 0 VcpuState.start;
  exec_cpu = some 0;
  last_cpu = some 0;
  started_vm = some 0;
  sched = (record (waiting.sched.0) { wque = [] }, waiting.sched.1);
}

chosen : reschedule m waiting ≡ some running
unfolding reschedule vcpu_preemption vcpu_start enter drop_event my_schedule
chosen = refl

Reach-Coherent_example : Coherent m (rr_queue id id id) running
Reach-Coherent_example =
    Reach-Coherent m (rr_queue id id id) fresh-Coherent
      (next (next here (ready 0 (omega arith) made_ready)) (choose chosen))

waiting-Coherent : Coherent m (rr_queue id id id) waiting
waiting-Coherent =
    Reach-Coherent m (rr_queue id id id) fresh-Coherent
      (next here (ready 0 (omega arith) made_ready))

-- An interrupt 29 whose handler is the function 5 with the argument 6.
abbrev heap : Heap
heap = record {
  key = λ p. 29;
  val = λ p. 0;
  par = λ p. 0;
  left = λ p. 0;
  right = λ p. 0;
  red = λ p. false;
  head = λ t. 1;
  tree_count = 1;
  pool_count = 1;
  ls = [];
  aborts = 0;
}

abbrev handlers : Handlers ℕ
handlers = record { func = λ i. 5; arg = λ i. 6; hdlr_num = 1; heap = heap }

abbrev handler_tree : Tree
handler_tree = node leaf 1 false 29 0 leaf

handler_tree-Is : Is heap handler_tree
handler_tree-Is = ground arith

-- The function and its argument go into the count of the aborts, to be seen.
abbrev shown : ℕ → ℕ → ℕ → Pool (RrState × TimerState) ℕ → Option (Pool (RrState × TimerState) ℕ)
shown f eoir arg s = some (record s { aborts = f * 100 + arg })

call_handler-Calls_example :
    Calls m
      (λ k. k.0.flag)
      shown
      handler_tree
      29
      handlers
      waiting
      (call_handler m (λ k. k.0.flag) shown 2 0 29 handlers waiting)
call_handler-Calls_example =
    call_handler-Calls m (λ k. k.0.flag) shown handlers handler_tree 2 0 29 waiting refl
      handler_tree-Is (tt, tt, tt, tt) (omega arith) (omega arith)

-- VCPU 0 sleeps, with no event to wake it, and nothing runs.
abbrev asleep : Pool (RrState × TimerState) ℕ
asleep = record running {
  state = set_state running.state 0 VcpuState.sleep;
  exec_cpu = none;
  saved = put_context running.saved 0 0;
}

fell_asleep : vcpu_sleep m 0 running ≡ some asleep
unfolding vcpu_sleep set_alarm fall_asleep vcpu_save_state my_yield
fell_asleep = refl

asleep-Coherent : Coherent m (rr_queue id id id) asleep
asleep-Coherent = Reach-Coherent m (rr_queue id id id) fresh-Coherent (
    next (next (next here (ready 0 (omega arith) made_ready)) (choose chosen))
      (sleep 0 fell_asleep))

-- A handler that wakes the VCPU of its argument, if it sleeps, as an event of vcpu_sleep does.
abbrev woken : ℕ → ℕ → ℕ → Pool (RrState × TimerState) ℕ → Option (Pool (RrState × TimerState) ℕ)
woken f eoir arg s = elim (s.state arg) [
  | VcpuState.sleep ↦ vcpu_wakeup_by_timer m arg s
  | _ ↦ some s
]

woken-Coherent :
    (f eoir arg : ℕ) (s s' : Pool (RrState × TimerState) ℕ)
    → Coherent m (rr_queue id id id) s
    → woken f eoir arg s ≡ some s'
    → Coherent m (rr_queue id id id) s'
woken-Coherent f eoir arg s s' h e = elim (VcpuState-discrete (s.state arg) VcpuState.sleep) [
  | yes i ↦ alarm-Coherent m (rr_queue id id id) arg s s' h i (ground arith)
  | no o ↦ let same : s ≡ s' = ground arith in subst (Coherent m (rr_queue id id id)) same h
]

-- The interrupt 29 wakes VCPU 0, which is then chosen.
abbrev wakers : Handlers ℕ
wakers = record { func = λ i. 5; arg = λ i. 0; hdlr_num = 1; heap = heap }

abbrev awake : Pool (RrState × TimerState) ℕ
awake = record asleep {
  state = set_state (set_state asleep.state 0 VcpuState.wait) 0 VcpuState.start;
  exec_cpu = some 0;
  timer_event = put asleep.timer_event 0 0;
}

interrupted : irq_handler m (λ k. k.0.flag) woken 2 0 29 wakers asleep ≡ some awake
unfolding irq_handler call_handler preempt_if_flag rbtree_search search_from reschedule
    vcpu_preemption vcpu_start enter drop_event my_schedule handler_comp vcpu_wakeup_by_timer
    unblock_wait my_unblock my_enque
interrupted = refl

irq_handler-Coherent_example :
    (u : Pool (RrState × TimerState) ℕ) × Calls m
      (λ k. k.0.flag)
      woken
      handler_tree
      29
      wakers
      asleep
      (some u)
    × Preempts m (λ k. k.0.flag) woken u awake
    × Coherent m (rr_queue id id id) awake
irq_handler-Coherent_example =
    irq_handler-Coherent m (λ k. k.0.flag) woken (rr_queue id id id) woken-Coherent wakers
      handler_tree 2 0 29 asleep awake refl handler_tree-Is (tt, tt, tt, tt) (omega arith)
      (omega arith) asleep-Coherent interrupted

-- VCPU 1 is ready behind the executing VCPU 0.
abbrev both : Pool (RrState × TimerState) ℕ
both = record running {
  state = set_state running.state 1 VcpuState.wait;
  sched = (record (running.sched.0) { wque = 2 ∷ [] }, running.sched.1);
}

second_ready : vcpu_ready m 1 running ≡ some both
unfolding vcpu_ready my_enque
second_ready = refl

both-Coherent : Coherent m (rr_queue id id id) both
both-Coherent = Reach-Coherent m (rr_queue id id id) fresh-Coherent (
    next (next (next here (ready 0 (omega arith) made_ready)) (choose chosen))
      (ready 1 (omega arith) second_ready))

preemptions-wque_example :
    (t : Pool (RrState × TimerState) ℕ) × (preemptions m 2 both ≡ some (some 0 ∷ some 1 ∷ [], t))
    × (t.exec_cpu ≡ some 0)
    × (t.sched.0.wque ≡ 2 ∷ [])
preemptions-wque_example = preemptions-wque id id id both 0 both-Coherent refl (λ q i. ground arith)
