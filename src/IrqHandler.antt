-- ===== src/IrqHandler.antt =====
-- irq_handler.c: the handlers of the interrupts in a red-black tree, and what an interrupt does. A
-- function of a handler is a value of a type `F`, and `run` says what it does to the VCPUs. The wait
-- at the end of irq_handler, for an interrupt that makes a VCPU run, is left out. `none` is a fault.
use Prim.Native.Nat.{Ordering}
use t_visor.Prelude.{
  ℕ, ◌+◌, ◌-◌, ◌%◌, ◌^◌, ◌<◌, ◌≡◌, refl, subst, Bool, true, false, Option, none, some, ◌⊎◌, inl,
  inr, arith, ltb, leb, ◌==◌, if◌then◌else◌, ==_of_ne, Bool-cases, Option-cases,
}
use t_visor.Rbtree.{null, Heap, Comp, rbtree_insert, rbtree_search}
use t_visor.Rbtree.Balanced.{within-ne-null}
use t_visor.Rbtree.Shape.{Tree, root, Is}
use t_visor.Rbtree.Search.{
  ComparesBelow, KeysBelow, IsOrdered, height, has_key, has_entry, rbtree_search-Finds,
}
use t_visor.Vcpu.{Pool, Machine, reschedule}
use t_visor.Vcpu.Interface.{ReadyQueue}
use t_visor.Vcpu.Life.{Coherent}
use t_visor.Vcpu.Dispatch.{Runs, reschedule-Coherent, reschedule-Runs}

-- `hdlr` and `hdlr_num`, and the heap of the trees. The value of a node is the index in `hdlr`.
pub record Handlers (F : Type 0) : Type 0 where
  pub func : ℕ → F
  pub arg : ℕ → ℕ
  pub hdlr_num : ℕ
  pub heap : Heap

-- The sign of `nb-na` as a word with sign.
unfoldable pub handler_comp : Comp
handler_comp a b =
    let d = (b + 2 ^ 32 - a) % 2 ^ 32 in
    if d == 0 then Ordering.eq else if ltb d (2 ^ 31) then Ordering.gt else Ordering.lt

handler_comp-ComparesBelow : ComparesBelow (2 ^ 31) handler_comp
unfolding handler_comp
handler_comp-ComparesBelow a b x y = ground arith

-- `hdlr` has 512 entries.
pub irq_handler_register :
    {F : Type 0} (fuel tree : ℕ) → ℕ → F → ℕ → Handlers F → Option (Handlers F)
irq_handler_register fuel tree irq_no func arg t =
    let i = t.hdlr_num in
    if leb 512 i then none else elim (rbtree_insert fuel handler_comp tree irq_no i t.heap) [
      | none ↦ none
      | some h ↦ some (record {
        func = λ j. if i == j then func else t.func j;
        arg = λ j. if i == j then arg else t.arg j;
        hdlr_num = i + 1;
        heap = h;
      })
    ]

module _ {S C F : Type 0} (m : Machine S C) (get_flag : S → Bool)
    (run : F → (eoir arg : ℕ) → Pool S C → Option (Pool S C)) where
  -- The call of the handler, or `tv_abort` if there is none.
  unfoldable pub call_handler : (fuel tree eoir : ℕ) → Handlers F → Pool S C → Option (Pool S C)
  call_handler fuel tree eoir t s =
      elim (rbtree_search fuel handler_comp tree (eoir % 2 ^ 10) t.heap) [
        | none ↦ none
        | some p ↦
            if p == null
            then some (record s { aborts = s.aborts + 1 })
            else run (t.func (t.heap.val p)) eoir (t.arg (t.heap.val p)) s
      ]

  -- `if(scheduler_get_flag()) vcpu_preemption(...)`.
  unfoldable pub preempt_if_flag : Pool S C → Option (Pool S C)
  preempt_if_flag s = elim (get_flag s.sched) [ true ↦ reschedule m s | false ↦ some s ]

  unfoldable pub irq_handler : (fuel tree eoir : ℕ) → Handlers F → Pool S C → Option (Pool S C)
  irq_handler fuel tree eoir t s = elim (call_handler fuel tree eoir t s) [
    | none ↦ none
    | some u ↦ preempt_if_flag u
  ]

  -- What the call does, by the table of the handlers.
  abbrev pub Calls : Tree → (eoir : ℕ) → Handlers F → Pool S C → Option (Pool S C) → Type 0
  Calls u eoir t s r =
      ((has_key (eoir % 2 ^ 10) u ≡ false) × (r ≡ some (record s { aborts = s.aborts + 1 })))
      ⊎ ((i : ℕ) × (has_entry (eoir % 2 ^ 10) i u ≡ true) × (r ≡ run (t.func i) eoir (t.arg i) s))

  -- With the handlers in an ordered tree, not higher than the fuel, an interrupt runs a function
  -- that is registered for its number, with the argument that stands with it, or aborts if there is
  -- none.
  pub call_handler-Calls :
      (t : Handlers F) (u : Tree) (fuel tree eoir : ℕ) (s : Pool S C)
      → t.heap.head tree ≡ root u
      → Is t.heap u
      → IsOrdered u
      → KeysBelow (2 ^ 31) u
      → height u < fuel
      → Calls u eoir t s (call_handler fuel tree eoir t s)
  unfolding call_handler
  call_handler-Calls t u fuel tree eoir s e i o b f =
      let (p, found, what) =
        rbtree_search-Finds (2 ^ 31) handler_comp handler_comp-ComparesBelow (eoir % 2 ^ 10)
          (omega arith) t.heap u tree fuel e i o b f in
      elim what [
        | inl (z, none_there) ↦ inl (none_there, rw (found, call_handler) (rw z refl))
        | inr (w, k, entry) ↦
            let real = ==_of_ne p null (within-ne-null t.heap p u i w) in
            inr (t.heap.val p, entry, rw (found, call_handler) (rw real refl))
      ]

  -- What follows the handler: nothing if the flag is clear; else the scheduler's choice is executing.
  abbrev pub Preempts : Pool S C → Pool S C → Type 0
  Preempts u s' =
      ((get_flag u.sched ≡ false) × (s' ≡ u)) ⊎ ((get_flag u.sched ≡ true) × Runs m u s')

  module _ (q : ReadyQueue m)
      (keeps : (f : F) (eoir arg : ℕ) (s s' : Pool S C)
        → Coherent m q s
        → run f eoir arg s ≡ some s'
        → Coherent m q s') where
    aborted-Coherent :
        (s : Pool S C) → Coherent m q s → Coherent m q (record s { aborts = s.aborts + 1 })
    aborted-Coherent s h = record {
      inside = h.inside;
      owned = h.owned;
      queued = h.queued;
      running = h.running;
      alone = h.alone;
    }

    call_handler-Coherent :
        (t : Handlers F) (fuel tree eoir : ℕ) (s s' : Pool S C)
        → Coherent m q s
        → call_handler fuel tree eoir t s ≡ some s'
        → Coherent m q s'
    unfolding call_handler
    call_handler-Coherent t fuel tree eoir s s' h e =
        elim (Option-cases (rbtree_search fuel handler_comp tree (eoir % 2 ^ 10) t.heap)) [
          | inl n ↦ absurd (cc (rw (n, call_handler) at e))
          | inr (p, n) ↦
              let e' = rw (n, call_handler) at e in
              elim (Bool-cases (p == null)) [
                | inl z ↦
                    let is : record s { aborts = s.aborts + 1 } ≡ s' = cc (rw z at e') in
                    subst (Coherent m q) is (aborted-Coherent s h)
                | inr z ↦
                    keeps (t.func (t.heap.val p)) eoir (t.arg (t.heap.val p)) s s' h (rw z at e')
              ]
        ]

    preempt-Coherent :
        (s s' : Pool S C) → Coherent m q s → preempt_if_flag s ≡ some s' → Coherent m q s'
    unfolding preempt_if_flag
    preempt-Coherent s s' h e = elim (Bool-cases (get_flag s.sched)) [
      | inl y ↦ reschedule-Coherent m q s s' h (rw (y, preempt_if_flag) at e)
      | inr n ↦ subst (Coherent m q) (cc (rw (n, preempt_if_flag) at e)) h
    ]

    preempt-Preempts :
        (s s' : Pool S C) → Coherent m q s → preempt_if_flag s ≡ some s' → Preempts s s'
    unfolding preempt_if_flag
    preempt-Preempts s s' h e = elim (Bool-cases (get_flag s.sched)) [
      | inl y ↦ inr (y, reschedule-Runs m q s s' h (rw (y, preempt_if_flag) at e))
      | inr n ↦ inl (n, cc (rw (n, preempt_if_flag) at e))
    ]

    -- An interrupt whose handling returns, with the handlers in an ordered tree, not higher than the
    -- fuel, and each of them keeping the VCPUs coherent: first the function runs that is registered for
    -- its number, with its argument, or a message is printed if there is none. If the flag is then
    -- clear, nothing else happens; if it is set, the scheduler is asked, and the VCPU that it chooses is
    -- executing at the end, or none if it chooses none. The VCPUs are coherent again.
    pub irq_handler-Coherent :
        (t : Handlers F) (w : Tree) (fuel tree eoir : ℕ) (s s' : Pool S C)
        → t.heap.head tree ≡ root w
        → Is t.heap w
        → IsOrdered w
        → KeysBelow (2 ^ 31) w
        → height w < fuel
        → Coherent m q s
        → irq_handler fuel tree eoir t s ≡ some s'
        → (u : Pool S C) × Calls w eoir t s (some u) × Preempts u s' × Coherent m q s'
    unfolding irq_handler
    irq_handler-Coherent t w fuel tree eoir s s' top i o b f h e =
        elim (Option-cases (call_handler fuel tree eoir t s)) [
          | inl n ↦ absurd (cc (rw (n, irq_handler) at e))
          | inr (u, n) ↦
              let ran : preempt_if_flag u ≡ some s' = rw (n, irq_handler) at e in
              let h' = call_handler-Coherent t fuel tree eoir s u h n in
              (
                u,
                subst (Calls w eoir t s) n (call_handler-Calls t w fuel tree eoir s top i o b f),
                preempt-Preempts u s' h' ran,
                preempt-Coherent u s' h' ran,
              )
        ]
