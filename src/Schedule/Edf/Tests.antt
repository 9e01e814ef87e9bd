-- ===== src/Schedule/Edf/Tests.antt =====
-- Slots of edf_scheduler.c with the deadlines 100, 200 and so on.
use t_visor.Prelude.{ℕ, ◌+◌, ◌-◌, ◌*◌, ◌^◌, ◌≡◌, refl, false, some, [], ◌∷◌, arith}
use t_visor.Sorted.{insert_sorted}
use t_visor.TimerEvent.{TimerState, htimer_clear}
use t_visor.Schedule.{VcpuState, View}
use t_visor.Schedule.Edf.{EdfState, release_loop, my_block}
use t_visor.Schedule.Edf.Release.{Ordered, release_loop-Ordered}
use t_visor.Schedule.Edf.Pick.{my_block_overrun}

abbrev timer : TimerState
timer = record {
  func = λ q. 0;
  arg = λ q. 0;
  time = λ q. 0;
  fl = 1 ∷ 2 ∷ [];
  el = [];
  htimer = htimer_clear 0;
  leftover = λ n. n;
  aborts = 0;
}

-- The slots 1 and 2 are ready, 3 and 4 wait; each has a budget of 50 in a period of 1000.
abbrev four : EdfState
four = record {
  fl = [];
  ls = 1 ∷ 2 ∷ [];
  ws = 3 ∷ 4 ∷ [];
  vcpu = λ q. q - 1;
  remained_time = λ q. 50;
  dead_line = λ q. q * 100;
  start_time = λ q. 0;
  period = λ v. 1000;
  exection_time = λ v. 50;
  first_time = λ v. 0;
  end_event = 0;
  insert_event = 0;
  timer = timer;
  flag = false;
  aborts = 0;
}

abbrev at : ℕ → View
at now = record {
  executing = some 4;
  state = λ v. VcpuState.start;
  sched_state = λ v. v + 1;
  now = now;
}

four-Ordered : Ordered four (3 ∷ 4 ∷ [])
four-Ordered = record {
  ready = ground arith;
  waiting = ground arith;
  ready_distinct = ground arith;
  waiting_distinct = ground arith;
  apart = λ q h. ground arith;
}

release_loop-Ordered_example : let t = release_loop (3 ∷ 4 ∷ []) 250 four in Ordered t t.ws
release_loop-Ordered_example = release_loop-Ordered (3 ∷ 4 ∷ []) 250 four four-Ordered

-- VCPU 4 had 50 left and ran for 60.
my_block_overrun_example :
    let t = my_block (at 60) 4 four in
    (t.remained_time 5 ≡ 2 ^ 32 - 10)
    × (t.ls ≡ insert_sorted (λ q. q * 100) 5 (1 ∷ 2 ∷ []))
    × (t.ws ≡ 3 ∷ 4 ∷ [])
my_block_overrun_example = my_block_overrun (at 60) four 4 refl (omega arith) (omega arith)
