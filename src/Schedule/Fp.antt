-- ===== src/Schedule/Fp.antt =====
-- fp_scheduler.c: fixed priorities, a queue of ready slots for each of the eight priorities. A
-- QUEUE_LIST is the sequence of its nodes, and a slot's node is its index plus one.
pub mod Highest
mod Tests
use t_visor.Prelude.{
  ℕ, zero, suc, ◌+◌, ◌-◌, Bool, true, false, Option, none, some, List, [], ◌∷◌, ◌++◌, ltb, ◌==◌,
  if◌then◌else◌,
}
use t_visor.Schedule.{VcpuState, View, ScheduleOperations}
use t_visor.TimerEvent.{slots_from, put}

abbrev pub max_priority : ℕ
max_priority = 8

pub record FpState : Type 0 where
  pub fl : List ℕ
  -- The array `_ls`, read and written below `max_priority` only.
  pub ls : ℕ → List ℕ
  -- The field `vcpu` of the slots.
  pub vcpu : ℕ → ℕ
  -- `((fp_sched_param_t *)vcpu->sched_param)->priority` of each VCPU.
  pub priority : ℕ → ℕ
  -- The flag of schedule.c.
  pub flag : Bool

abbrev pub set_list : (ℕ → List ℕ) → ℕ → List ℕ → ℕ → List ℕ
set_list ls i xs j = if i == j then xs else ls j

pub scheduler_set_flag : FpState → FpState
scheduler_set_flag s = record s { flag = true }

pub my_init : FpState → FpState
my_init s = record s { fl = slots_from 1 16; ls = λ i. if ltb i max_priority then [] else s.ls i }

pub my_allocate : ℕ → FpState → ℕ × FpState
my_allocate vcpu s = elim s.fl [
  | [] ↦ (0, s)
  | que ∷ rest ↦ (que, record s { fl = rest; vcpu = put s.vcpu que vcpu })
]

-- A priority beyond the last one counts as the last one.
abbrev pub clamp : ℕ → ℕ
clamp pri = if ltb pri max_priority then pri else max_priority - 1

-- `for(i=0;i<=max_pri;i++)` from `i`, with the rounds left: the first list that is not empty is
-- popped. `none` is a read beyond the array.
unfoldable pub scan : ℕ → ℕ → FpState → Option (Option ℕ × FpState)
scan zero i s = some (none, s)
scan (suc n) i s =
    let rest = scan n (suc i) s in
    if ltb i max_priority
    then elim (s.ls i) [
      | [] ↦ rest
      | que ∷ xs ↦ some (some (s.vcpu que), record s { ls = set_list s.ls i xs })
    ]
    else none

-- `max_pri` of `my_schedule`.
abbrev pub max_pri : Option ℕ → FpState → ℕ
max_pri none s = max_priority
max_pri (some exe) s = clamp (s.priority exe)

-- The executing VCPU goes on if nothing was found.
abbrev pub or_executing : Option ℕ → Option (Option ℕ × FpState) → Option (Option ℕ × FpState)
or_executing exe none = none
or_executing exe (some (none, s)) = some (exe, s)
or_executing exe (some (some v, s)) = some (some v, s)

pub my_schedule : View → FpState → Option (Option ℕ × FpState)
my_schedule view s = or_executing view.executing (scan (suc (max_pri view.executing s)) 0 s)

pub my_enque : View → ℕ → FpState → FpState
my_enque view vcpu s =
    let pri = clamp (s.priority vcpu) in
    record s { ls = set_list s.ls pri (s.ls pri ++ view.sched_state vcpu ∷ []) }

pub my_block : View → ℕ → FpState → FpState
unfolding my_enque scheduler_set_flag
my_block view vcpu s = scheduler_set_flag (my_enque view vcpu s)

pub my_unblock : View → ℕ → FpState → FpState
unfolding my_enque scheduler_set_flag
my_unblock view vcpu s = elim (view.state vcpu) [
  | VcpuState.sleep ↦ scheduler_set_flag (my_enque view vcpu s)
  | _ ↦ s
]

pub my_yield : FpState → FpState
unfolding scheduler_set_flag
my_yield s = scheduler_set_flag s

pub fp_scheduler : ScheduleOperations FpState
fp_scheduler = record {
  init = my_init;
  schedule = my_schedule;
  yield = my_yield;
  block = λ view vcpu s. some (my_block view vcpu s);
  unblock = λ view vcpu s. some (my_unblock view vcpu s);
  allocate = my_allocate;
  enque = λ view vcpu s. some (my_enque view vcpu s);
}
