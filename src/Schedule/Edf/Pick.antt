-- ===== src/Schedule/Edf/Pick.antt =====
-- Which VCPU edf_scheduler.c runs, and what becomes of one that used more than its budget.
use t_visor.Prelude.{ℕ, ◌+◌, ◌-◌, ◌%◌, ◌^◌, ◌<◌, ◌≡◌, some, List, ◌∷◌, arith, ltb, if◌then◌else◌}
use t_visor.Sorted.{insert_sorted}
use t_visor.Schedule.{View, VcpuState}
use t_visor.Schedule.Edf.{
  EdfState, choose, dispatch, goes_on, sub64, my_block, charge, requeue, scheduler_set_flag,
}

-- With a VCPU running, budget left to it and a slot `que` ready, `my_schedule` lets it go on if its
-- deadline is later than that of `que`, and otherwise dispatches `que`: the later deadline wins.
pub choose_later :
    (view : View) (s : EdfState) (exe que : ℕ) (rest : List ℕ)
    → view.executing ≡ some exe
    → s.ls ≡ que ∷ rest
    → sub64 view.now (s.start_time (view.sched_state exe) % 2 ^ 32)
      < s.remained_time (view.sched_state exe)
    → choose view s ≡ (
        if ltb (s.dead_line que) (s.dead_line (view.sched_state exe))
        then some (some exe, s)
        else dispatch s view.now que rest)
unfolding choose goes_on
choose_later view s exe que rest e r b = ground arith

-- A VCPU in the state START that ran longer than the budget it had left, but less than 2^32, does not
-- run out of budget when it is blocked: the difference wraps around, and its slot is put among the
-- ready ones and not among the waiting.
pub my_block_overrun :
    (view : View) (s : EdfState) (vcpu : ℕ)
    → view.state vcpu ≡ VcpuState.start
    → let que = view.sched_state vcpu in
      let elapsed = sub64 view.now (s.start_time que) in
      s.remained_time que < elapsed
      → elapsed < 2 ^ 32
      → ((my_block view vcpu s).remained_time que ≡ 2 ^ 32 + s.remained_time que - elapsed)
        × ((my_block view vcpu s).ls ≡ insert_sorted s.dead_line que s.ls)
        × ((my_block view vcpu s).ws ≡ s.ws)
unfolding my_block charge requeue scheduler_set_flag
my_block_overrun view s vcpu e o b = (ground arith, ground arith, ground arith)
