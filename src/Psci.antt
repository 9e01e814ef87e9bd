-- ===== src/Psci.antt =====
-- virtual_psci.c: the PSCI calls of a guest, on the VCPUs of vcpu.c. The result of a call is a word.
pub mod Laws
mod Tests
use mathlib.Core.Option
use t_visor.Prelude.{ℕ, ◌+◌, ◌-◌, ◌%◌, ◌^◌, Option, none, some, leb, ◌==◌, if◌then◌else◌}
use t_visor.Schedule.{VcpuState}
use t_visor.Vcpu.{Pool, Machine, put_context, vcpu_ready, vcpu_off, vcpu_reset}
use t_visor.Vcpu.Context.{Context, boot}

-- The VCPUs of a VM follow each other in the pool: the number of the first one, and how many.
pub record VmTable : Type 0 where
  pub vcpus : ℕ → ℕ
  pub vcpu_num : ℕ → ℕ

abbrev pub fn_cpu_suspend : ℕ
fn_cpu_suspend = 0x84000001

abbrev pub fn_cpu_off : ℕ
fn_cpu_off = 0x84000002

abbrev pub fn_cpu_on : ℕ
fn_cpu_on = 0x84000003

-- The results `-1`, `-2` and `-4` as words.
abbrev pub not_supported : ℕ
not_supported = 2 ^ 32 - 1

abbrev pub inval_id_parameters : ℕ
inval_id_parameters = 2 ^ 32 - 2

abbrev pub already_on : ℕ
already_on = 2 ^ 32 - 4

pub virtual_psci_cpu_suspend : (state address cid : ℕ) → ℕ
virtual_psci_cpu_suspend state address cid = not_supported

module _ {S : Type 0} (m : Machine S Context) (vms : VmTable) where
  abbrev abort : Pool S Context → Pool S Context
  abort s = record s { aborts = s.aborts + 1 }

  -- With no executing VCPU, a null pointer is dereferenced.
  unfoldable pub virtual_psci_cpu_off : Pool S Context → Option (ℕ × Pool S Context)
  virtual_psci_cpu_off s = elim s.exec_cpu [ none ↦ none | some e ↦ some (0, vcpu_off m e s) ]

  -- The end of `virtual_psci_cpu_on`, for the VCPU `v`.
  unfoldable pub start_on : (v address cid : ℕ) → Pool S Context → Option (ℕ × Pool S Context)
  start_on v address cid s =
      let t = vcpu_reset m v s in
      Option.map (λ u. (0, u))
        (vcpu_ready m v (record t { saved = put_context t.saved v (boot address cid (t.saved v)) }))

  unfoldable pub virtual_psci_cpu_on :
      (target address cid : ℕ) → Pool S Context → Option (ℕ × Pool S Context)
  virtual_psci_cpu_on target address cid s = elim s.exec_cpu [
    | none ↦ none
    | some e ↦
        let vm = s.vm e in
        let v = vms.vcpus vm + target % 4 in
        if leb (vms.vcpu_num vm) (target % 4)
        then some (inval_id_parameters, abort s)
        else elim (s.state v) [
          | VcpuState.init ↦ start_on v address cid s
          | _ ↦ some (already_on, s)
        ]
  ]

  -- `reg` are the registers of the guest. The first message is no error.
  unfoldable pub virtual_psci : (ℕ → ℕ) → Pool S Context → Option (ℕ × Pool S Context)
  virtual_psci reg s =
      let t = abort s in
      if reg 0 == fn_cpu_suspend
      then some (virtual_psci_cpu_suspend (reg 1) (reg 2) (reg 3), t)
      else if reg 0 == fn_cpu_off
      then virtual_psci_cpu_off t
      else if reg 0 == fn_cpu_on
      then virtual_psci_cpu_on (reg 1) (reg 2) (reg 3) t
      else some (not_supported, abort t)
