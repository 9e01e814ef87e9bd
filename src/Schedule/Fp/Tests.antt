-- ===== src/Schedule/Fp/Tests.antt =====
-- Three VCPUs of priority 2 in fp_scheduler.c, one of which runs.
use t_visor.Prelude.{◌+◌, ◌-◌, ◌≡◌, refl, false, some, [], ◌∷◌, ◌==◌, if◌then◌else◌}
use t_visor.Schedule.{VcpuState, View}
use t_visor.Schedule.Fp.{FpState, set_list, scan, my_schedule}
use t_visor.Schedule.Fp.Highest.{Picked, my_schedule-Picked}

-- The VCPUs 1 and 2 are ready, in the slots 2 and 3, and VCPU 0 runs.
abbrev three : FpState
three = record {
  fl = [];
  ls = λ i. if i == 2 then 2 ∷ 3 ∷ [] else [];
  vcpu = λ q. q - 1;
  priority = λ v. 2;
  flag = false;
}

abbrev view : View
view = record {
  executing = some 0;
  state = λ v. VcpuState.start;
  sched_state = λ v. v + 1;
  now = 0;
}

abbrev popped : FpState
popped = record three { ls = set_list three.ls 2 (3 ∷ []) }

picked : my_schedule view three ≡ some (some 1, popped)
unfolding my_schedule scan
picked = refl

my_schedule-Picked_example : Picked (some 0) three (some 1) popped
my_schedule-Picked_example = my_schedule-Picked view three popped (some 1) picked

-- Nobody is ready.
abbrev idle : FpState
idle = record three { ls = λ i. [] }
