-- ===== src/Vcpu/Interface.antt =====
-- What vcpu.c needs of a scheduler and of timer_event.c: which VCPUs are in the ready queue, and
-- how often.
use t_visor.Prelude.{ℕ, ◌+◌, ◌<◌, ◌≡◌, ◌⊎◌, Option, some, ◌==◌, if◌then◌else◌}
use t_visor.Schedule.{VcpuState, View}
use t_visor.Vcpu.{Machine}

abbrev pub one_of : ℕ → ℕ → ℕ
one_of v w = if v == w then 1 else 0

module _ {S : Type 0} (count : S → ℕ → ℕ) where
  -- The queue of `s'` is that of `s`, with `v` once more.
  abbrev pub Adds : ℕ → S → S → Type 0
  Adds v s s' = (w : ℕ) → count s' w ≡ count s w + one_of v w

  abbrev pub Same : S → S → Type 0
  Same s s' = (w : ℕ) → count s' w ≡ count s w

  -- A VCPU was taken out of the queue, or the executing one goes on.
  abbrev pub Chooses : Option ℕ → S → Option ℕ → S → Type 0
  Chooses exe s r s' = ((v : ℕ) × (r ≡ some v) × Adds v s' s) ⊎ ((r ≡ exe) × Same s s')

-- `Owned n` says that the slot `sched_state` of each of the first `n` VCPUs is its own. A VCPU is put into
-- the queue by `enque`, by `block` while it runs, and by `unblock` while it sleeps.
pub record ReadyQueue {S C : Type 0} (m : Machine S C) : Type 1 where
  pub count : S → ℕ → ℕ
  pub Owned : ℕ → (ℕ → ℕ) → S → Type 0
  pub enque_adds :
      (n : ℕ) (view : View) (v : ℕ) (s s' : S)
      → v < n
      → Owned n view.sched_state s
      → m.operations.enque view v s ≡ some s'
      → Owned n view.sched_state s' × Adds count v s s'
  pub block_adds :
      (n : ℕ) (view : View) (v : ℕ) (s s' : S)
      → v < n
      → Owned n view.sched_state s
      → view.state v ≡ VcpuState.start
      → m.operations.block view v s ≡ some s'
      → Owned n view.sched_state s' × Adds count v s s'
  pub unblock_adds :
      (n : ℕ) (view : View) (v : ℕ) (s s' : S)
      → v < n
      → Owned n view.sched_state s
      → view.state v ≡ VcpuState.sleep
      → m.operations.unblock view v s ≡ some s'
      → Owned n view.sched_state s' × Adds count v s s'
  pub schedule_chooses :
      (n : ℕ) (view : View) (s : S) (r : Option ℕ) (s' : S)
      → Owned n view.sched_state s
      → m.operations.schedule view s ≡ some (r, s')
      → Owned n view.sched_state s' × Chooses count view.executing s r s'
  pub yield_same :
      (n : ℕ) (slots : ℕ → ℕ) (s : S)
      → Owned n slots s
      → Owned n slots (m.operations.yield s) × Same count s (m.operations.yield s)
  pub clear_flag_same :
      (n : ℕ) (slots : ℕ → ℕ) (s : S)
      → Owned n slots s
      → Owned n slots (m.clear_flag s) × Same count s (m.clear_flag s)
  pub insert_event_same :
      (n : ℕ) (slots : ℕ → ℕ) (t v : ℕ) (s : S) (e : ℕ) (s' : S)
      → Owned n slots s
      → m.insert_event t v s ≡ some (e, s')
      → Owned n slots s' × Same count s s'
  pub remove_event_same :
      (n : ℕ) (slots : ℕ → ℕ) (e : ℕ) (s : S)
      → Owned n slots s
      → Owned n slots (m.remove_event e s) × Same count s (m.remove_event e s)
