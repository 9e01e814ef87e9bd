-- ===== src/Schedule/RoundRobin.antt =====
-- my_scheduler.c: one queue of ready slots, served in turn. A QUEUE_LIST is the sequence of its
-- nodes, and a slot's node is its index plus one.
pub mod Ready
use t_visor.Prelude.{ℕ, ◌+◌, Bool, true, false, Option, none, some, List, [], ◌∷◌, ◌++◌}
use t_visor.Schedule.{VcpuState, View, ScheduleOperations}
use t_visor.TimerEvent.{slots_from, put}

pub record RrState : Type 0 where
  pub wque : List ℕ
  pub fque : List ℕ
  -- The field `vcpu` of the slots.
  pub vcpu : ℕ → ℕ
  -- The flag of schedule.c, and the calls of `tv_abort`.
  pub flag : Bool
  pub aborts : ℕ

unfoldable pub my_init : RrState → RrState
my_init s = record s { wque = []; fque = slots_from 1 16 }

unfoldable pub my_allocate : ℕ → RrState → ℕ × RrState
my_allocate vcpu s = elim s.fque [
  | [] ↦ (0, record s { aborts = s.aborts + 1 })
  | ret ∷ rest ↦ (ret, record s { fque = rest; vcpu = put s.vcpu ret vcpu })
]

-- `if(vcpu_get_executing()==NULL) scheduler_set_flag();`
abbrev pub flag_if_idle : View → RrState → RrState
flag_if_idle view s = elim view.executing [ none ↦ record s { flag = true } | some exe ↦ s ]

unfoldable pub my_enque : View → ℕ → RrState → RrState
my_enque view vcpu s = flag_if_idle view (record s { wque = s.wque ++ view.sched_state vcpu ∷ [] })

unfoldable pub my_schedule : View → RrState → Option ℕ × RrState
my_schedule view s = elim s.wque [
  | [] ↦ (view.executing, s)
  | que ∷ rest ↦ (some (s.vcpu que), record s { wque = rest })
]

unfoldable pub my_yield : RrState → RrState
my_yield s = record s { flag = true }

unfoldable pub my_block : View → ℕ → RrState → RrState
unfolding my_enque
my_block view vcpu s = my_enque view vcpu s

unfoldable pub my_unblock : View → ℕ → RrState → RrState
unfolding my_enque
my_unblock view vcpu s = elim (view.state vcpu) [
  | VcpuState.sleep ↦ flag_if_idle view (my_enque view vcpu s)
  | _ ↦ s
]

unfoldable pub my_scheduler : ScheduleOperations RrState
my_scheduler = record {
  init = my_init;
  schedule = λ view s. some (my_schedule view s);
  yield = my_yield;
  block = λ view vcpu s. some (my_block view vcpu s);
  unblock = λ view vcpu s. some (my_unblock view vcpu s);
  allocate = my_allocate;
  enque = λ view vcpu s. some (my_enque view vcpu s);
}
