-- ===== src/Schedule.antt =====
-- The interface of include/schedule.h between vcpu.c and the schedulers, and what a scheduler sees
-- of the VCPUs. A VCPU is its number in the pool `t_vcpu`, and `none` is its null pointer.
pub mod Edf
pub mod Fp
pub mod RoundRobin
use t_visor.Prelude.{ℕ, Option}

-- `vcpu_state_t` of include/vcpu.h.
pub data VcpuState : Type 0 where
  init start wait sleep : VcpuState

-- What the schedulers read: `exec_cpu`, the fields `state` and `sched_state` of each VCPU, and
-- `ptimer_get_value`.
pub record View : Type 0 where
  pub executing : Option ℕ
  pub state : ℕ → VcpuState
  pub sched_state : ℕ → ℕ
  pub now : ℕ

-- `schedule_operation_t`, with the flag of schedule.c in the scheduler's state `S`. `none` is a
-- fault; a slot is a number, and 0 is the null pointer that `allocate` gives when none is free.
pub record ScheduleOperations (S : Type 0) : Type 0 where
  pub init : S → S
  pub schedule : View → S → Option (Option ℕ × S)
  pub yield : S → S
  pub block : View → ℕ → S → Option S
  pub unblock : View → ℕ → S → Option S
  pub allocate : ℕ → S → ℕ × S
  pub enque : View → ℕ → S → Option S
