-- ===== src/Schedule/Edf.antt =====
-- edf_scheduler.c: ready slots `ls` (`_ls`) and slots that wait for their next period `ws` (`_ws`),
-- both ordered by deadline, and two events of timer_event.c. A QUEUE_LIST is the sequence of its
-- nodes (Sorted.Walk has the loop of `list_enque` on the links), a slot's node is its index plus
-- one, and 0 is NULL.
pub mod Release
pub mod Pick
mod Tests
use t_visor.Prelude.{
  ℕ, ◌+◌, ◌-◌, ◌%◌, ◌^◌, Bool, true, false, ◌&&◌, Option, none, some, List, [], ◌∷◌, ltb, leb, ◌==◌,
  if◌then◌else◌,
}
use t_visor.Sorted.{insert_sorted}
use t_visor.Schedule.{VcpuState, View, ScheduleOperations}
use t_visor.TimerEvent.{TimerState, slots_from, put, timer_event_insert, timer_event_remove}

pub record EdfState : Type 0 where
  pub fl : List ℕ
  pub ls : List ℕ
  pub ws : List ℕ
  -- The fields of the slots: a UW of 32 bits, and UDs of 64.
  pub vcpu : ℕ → ℕ
  pub remained_time : ℕ → ℕ
  pub dead_line : ℕ → ℕ
  pub start_time : ℕ → ℕ
  -- The `edf_sched_param_t` of the VCPUs.
  pub period : ℕ → ℕ
  pub exection_time : ℕ → ℕ
  pub first_time : ℕ → ℕ
  pub end_event : ℕ
  pub insert_event : ℕ
  pub timer : TimerState
  -- The flag of schedule.c, and the calls of `tv_abort`.
  pub flag : Bool
  pub aborts : ℕ

-- The callback `scheduler_set_flag`, as the number that stands for it.
abbrev pub set_flag_func : ℕ
set_flag_func = 1

pub scheduler_set_flag : EdfState → EdfState
scheduler_set_flag s = record s { flag = true }

-- 64-bit and 32-bit differences wrap around.
abbrev pub sub64 : ℕ → ℕ → ℕ
sub64 a b = (a + 2 ^ 64 - b) % 2 ^ 64

pub my_init : EdfState → EdfState
my_init s = record s { fl = slots_from 1 16; ls = []; ws = [] }

pub my_allocate : ℕ → EdfState → ℕ × EdfState
my_allocate vcpu s = elim s.fl [
  | [] ↦ (0, s)
  | que ∷ rest ↦ (
    que,
    record s {
      fl = rest;
      vcpu = put s.vcpu que vcpu;
      dead_line =
          put s.dead_line que (
            if s.period vcpu == 0
            then 2 ^ 64 - 1
            else (s.first_time vcpu + s.period vcpu) % 2 ^ 64);
      remained_time = put s.remained_time que (s.exection_time vcpu % 2 ^ 32);
    },
  )
]

-- The body of the `while` of `my_schedule` for the slot `que`, popped from `ws`.
pub release : EdfState → ℕ → EdfState
release s que =
    let v = s.vcpu que in
    let dead_line = put s.dead_line que ((s.dead_line que + s.period v) % 2 ^ 64) in
    record s {
      dead_line = dead_line;
      remained_time = put s.remained_time que (s.exection_time v % 2 ^ 32);
      ls = insert_sorted dead_line que s.ls;
    }

-- `while(!empty(_ws) && top(_ws)->dead_line >= now)`, on the slots of `ws`.
pub release_loop : List ℕ → ℕ → EdfState → EdfState
release_loop [] now s = record s { ws = [] }
release_loop (que ∷ rest) now s =
    let later = release_loop rest now (release s que) in
    if leb now (s.dead_line que) then later else record s { ws = que ∷ rest }

-- The event for the first waiting slot is set anew. `none` is the fault of `timer_event_insert`.
pub set_insert_event : EdfState → Option EdfState
set_insert_event s =
    let timer = timer_event_remove s.timer s.insert_event in
    elim s.ws [
      | [] ↦ some (record s { timer = timer; insert_event = 0 })
      | que ∷ rest ↦ elim (timer_event_insert timer (s.dead_line que) set_flag_func 0) [
        | none ↦ none
        | some (e, t) ↦ some (record s { timer = t; insert_event = e })
      ]
    ]

-- Is the running VCPU to go on, with its slot `own`, against the first ready slot `que`? The
-- variable `start_time` of `my_schedule` is a UW, so the start is cut to 32 bits.
pub goes_on : EdfState → ℕ → ℕ → ℕ → Bool
goes_on s now own que =
    ltb (sub64 now (s.start_time own % 2 ^ 32)) (s.remained_time own)
    && ltb (s.dead_line que) (s.dead_line own)

-- The first ready slot is taken, and the event for the end of its budget is set.
pub dispatch : EdfState → ℕ → ℕ → List ℕ → Option (Option ℕ × EdfState)
dispatch s now que rest =
    let timer = timer_event_remove s.timer s.end_event in
    let v = s.vcpu que in
    elim (timer_event_insert timer ((now + s.exection_time v) % 2 ^ 64) set_flag_func 0) [
      | none ↦ none
      | some (e, t) ↦ some (
        some v,
        record s { start_time = put s.start_time que now; ls = rest; timer = t; end_event = e },
      )
    ]

-- The choice between the running VCPU and the first ready slot.
pub choose : View → EdfState → Option (Option ℕ × EdfState)
choose view s = elim s.ls [
  | [] ↦ some (view.executing, s)
  | que ∷ rest ↦ elim view.executing [
    | none ↦ dispatch s view.now que rest
    | some exe ↦
        if goes_on s view.now (view.sched_state exe) que
        then some (some exe, s)
        else dispatch s view.now que rest
  ]
]

pub my_schedule : View → EdfState → Option (Option ℕ × EdfState)
my_schedule view s = elim (set_insert_event (release_loop s.ws view.now s)) [
  | none ↦ none
  | some s' ↦ choose view s'
]

-- `list_enque` on the ready or on the waiting slots.
abbrev pub enque_ls : EdfState → ℕ → EdfState
enque_ls s que = record s { ls = insert_sorted s.dead_line que s.ls }

abbrev pub enque_ws : EdfState → ℕ → EdfState
enque_ws s que = record s { ws = insert_sorted s.dead_line que s.ws }

pub my_enque : View → ℕ → EdfState → EdfState
my_enque view vcpu s = enque_ls s (view.sched_state vcpu)

-- `remained_time -= now - start_time`, cut to 32 bits; it is unsigned, so `<= 0` is `== 0`.
pub charge : View → ℕ → EdfState → EdfState
charge view que s = record s {
  remained_time =
      put s.remained_time que
        ((s.remained_time que + 2 ^ 64 - sub64 view.now (s.start_time que)) % 2 ^ 32);
}

-- Out of budget, a slot waits for its next period.
pub requeue : ℕ → EdfState → EdfState
requeue que s = if s.remained_time que == 0 then enque_ws s que else enque_ls s que

pub my_block : View → ℕ → EdfState → EdfState
my_block view vcpu s = elim (view.state vcpu) [
  | VcpuState.start ↦
      let que = view.sched_state vcpu in
      let s' = requeue que (charge view que s) in
      scheduler_set_flag (record s' { timer = timer_event_remove s'.timer s'.end_event })
  | _ ↦ record s { aborts = s.aborts + 1 }
]

pub my_unblock : View → ℕ → EdfState → EdfState
my_unblock view vcpu s = elim (view.state vcpu) [
  | VcpuState.sleep ↦ scheduler_set_flag (requeue (view.sched_state vcpu) s)
  | _ ↦ s
]

pub my_yield : EdfState → EdfState
my_yield s = scheduler_set_flag (record s { timer = timer_event_remove s.timer s.end_event })

pub edf_scheduler : ScheduleOperations EdfState
edf_scheduler = record {
  init = my_init;
  schedule = my_schedule;
  yield = my_yield;
  block = λ view vcpu s. some (my_block view vcpu s);
  unblock = λ view vcpu s. some (my_unblock view vcpu s);
  allocate = my_allocate;
  enque = λ view vcpu s. some (my_enque view vcpu s);
}
