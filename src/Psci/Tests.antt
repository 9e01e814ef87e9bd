-- ===== src/Psci/Tests.antt =====
-- VCPU 0 of a VM with two VCPUs runs, and switches on VCPU 1.
use t_visor.Prelude.{ℕ, ◌+◌, ◌-◌, ◌≡◌, refl, false, some, [], ◌∷◌, arith, ◌==◌, if◌then◌else◌}
use t_visor.TimerEvent.{TimerState, put, htimer_clear, slots_from}
use t_visor.Schedule.{VcpuState}
use t_visor.Schedule.RoundRobin.{RrState, my_enque, my_allocate}
use t_visor.Vcpu.{Pool, Machine, vcpu_ready, vcpu_reset, set_state, put_context}
use t_visor.Vcpu.Context.{Context, reset_context, boot}
use t_visor.Vcpu.Life.{Coherent}
use t_visor.Vcpu.RoundRobin.{rr_machine, rr_queue}
use t_visor.Psci.{VmTable, virtual_psci, virtual_psci_cpu_on, start_on}
use t_visor.Psci.Laws.{Allocates, virtual_psci-Coherent}

abbrev zeros : ℕ → ℕ
zeros n = 0

abbrev blank : Context
blank = record {
  pc = 0;
  cpsr = 0;
  reg = zeros;
  spsr = zeros;
  sp = zeros;
  lr = zeros;
  fiq_banked = zeros;
  actlr = 0;
  sctlr = 0;
  cpacr = 0;
  csselr = 0;
  dacr = 0;
  dfsr = 0;
  ifsr = 0;
  adfsr = 0;
  aifsr = 0;
  dfar = 0;
  ifar = 0;
  prrr = 0;
  nmrr = 0;
  cidr = 0;
  tpidrprw = 0;
  tpidruro = 0;
  tpidrurw = 0;
  ttbcr = 0;
  ttbr0 = 0;
  ttbr1 = 0;
  par_lo = 0;
  par_hi = 0;
  vbar = 0;
  mpid = 0;
  mair0 = 0;
  mair1 = 0;
  vtctl = 0;
  vtcmp = 0;
  fpexc = 0;
  fpscr = 0;
  vfpr = zeros;
}

abbrev vtctl_of : Context → ℕ
vtctl_of c = c.vtctl

abbrev vtcmp_of : Context → ℕ
vtcmp_of c = c.vtcmp

abbrev m : Machine (RrState × TimerState) Context
m = rr_machine reset_context vtctl_of vtcmp_of

abbrev vms : VmTable
vms = record { vcpus = λ vm. 0; vcpu_num = λ vm. 2 }

abbrev one_runs : Pool (RrState × TimerState) Context
one_runs = record {
  num_vcpu = 2;
  state = λ v. if v == 0 then VcpuState.start else VcpuState.init;
  exec_cpu = some 0;
  last_cpu = some 0;
  sched_state = λ v. v + 1;
  timer_event = zeros;
  vtoff = zeros;
  vm = zeros;
  saved = λ v. blank;
  machine = blank;
  started_vm = some 0;
  sched = (
    record { wque = []; fque = slots_from 3 14; vcpu = λ q. q - 1; flag = false; aborts = 0 },
    record {
      func = zeros;
      arg = zeros;
      time = zeros;
      fl = slots_from 1 16;
      el = [];
      htimer = htimer_clear 0;
      leftover = λ n. n;
      aborts = 0;
    },
  );
  now = 0;
  aborts = 0;
}

one_runs-Coherent : Coherent m (rr_queue reset_context vtctl_of vtcmp_of) one_runs
one_runs-Coherent = record {
  inside = λ v h. ground arith;
  owned = λ v h. omega arith;
  queued = λ v. ground arith;
  running = λ e x. ground arith;
  alone = λ v x. ground arith;
}

-- CPU_ON for VCPU 1, at the address 4096.
abbrev call : ℕ → ℕ
call i = if i == 0 then 0x84000003 else if i == 1 then 1 else if i == 2 then 4096 else 7

abbrev both_on : Pool (RrState × TimerState) Context
both_on = record one_runs {
  state = set_state (set_state one_runs.state 1 VcpuState.init) 1 VcpuState.wait;
  sched_state = put one_runs.sched_state 1 3;
  saved =
      put_context (put_context one_runs.saved 1 (reset_context blank)) 1
        (boot 4096 7 (reset_context blank));
  sched = (
    record {
      wque = 3 ∷ [];
      fque = slots_from 4 13;
      vcpu = put one_runs.sched.0.vcpu 3 1;
      flag = false;
      aborts = 0;
    },
    one_runs.sched.1,
  );
  aborts = 1;
}

switched_on : virtual_psci m vms call one_runs ≡ some (0, both_on)
unfolding virtual_psci virtual_psci_cpu_on start_on vcpu_reset vcpu_ready my_enque my_allocate
switched_on = refl

gives_slot :
    (v : ℕ)
    → one_runs.state v ≡ VcpuState.init
    → Allocates m (rr_queue reset_context vtctl_of vtcmp_of) vms v one_runs
unfolding my_allocate
gives_slot v i = (λ w b. ground arith, λ w. refl)

virtual_psci-Coherent_example : Coherent m (rr_queue reset_context vtctl_of vtcmp_of) both_on
virtual_psci-Coherent_example =
    virtual_psci-Coherent m (rr_queue reset_context vtctl_of vtcmp_of) vms call one_runs both_on 0
      one_runs-Coherent (λ vm. omega arith) gives_slot switched_on
