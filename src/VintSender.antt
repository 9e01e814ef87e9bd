-- ===== src/VintSender.antt =====
-- vint_sender.c: which VCPU may send which interrupt to which VM, in a red-black tree from the receiver
-- and the interrupt to the mask of the senders.
mod Tests
use Prim.Native.Nat.{Ordering, compare}
use t_visor.Prelude.{
  ℕ, ◌+◌, ◌-◌, ◌*◌, ◌%◌, ◌^◌, ◌<◌, ◌≡◌, ◌≢◌, refl, Bool, true, false, Option, none, some, ◌⊎◌, inl,
  inr, arith, ltb, ◌==◌, if◌then◌else◌, ==_of_ne, Bool-cases,
}
use t_visor.Prelude.Words.{bit, set_bit}
use t_visor.Rbtree.{Ptr, null, Heap, Comp, rbtree_alloc, rbtree_insert, rbtree_search}
use t_visor.Rbtree.Shape.{Tree, root, Is}
use t_visor.Rbtree.Balanced.{within-ne-null}
use t_visor.Rbtree.Search.{
  ComparesBelow, KeysBelow, IsOrdered, height, has_key, has_entry, Finds, rbtree_search-Finds,
}

-- The sign of `nb-na` as a word with sign.
pub comp_func : Comp
comp_func a b =
    let d = (b + 2 ^ 32 - a) % 2 ^ 32 in
    if d == 0 then Ordering.eq else if ltb d (2 ^ 31) then Ordering.gt else Ordering.lt

pub comp_func-ComparesBelow : ComparesBelow (2 ^ 31) comp_func
unfolding comp_func
comp_func-ComparesBelow a b x y = ground arith

pub vint_sender_init : Heap → Option (ℕ × Heap)
vint_sender_init h = rbtree_alloc h

-- `((UW)rid) << 16 | irq_id`.
abbrev pub key_of : ℕ → ℕ → ℕ
key_of rid irq_id = rid % 2 ^ 8 * 2 ^ 16 + irq_id % 2 ^ 16

-- What the call of a guest leads to: `tv_abort`, nothing, or `virtual_gic_send_software_int` for the VM.
pub data Outcome : Type 0 where
  not_registered : Outcome
  not_permitted : Outcome
  send : (vm irq_id : ℕ) → Outcome

-- The sender is the id of the executing VCPU, and the registers r1 and r2 are given.
pub vint_sender_interface : (fuel tree : ℕ) → (sid r1 r2 : ℕ) → Heap → Option Outcome
vint_sender_interface fuel tree sid r1 r2 h =
    elim (rbtree_search fuel comp_func tree (key_of r1 r2) h) [
      | none ↦ none
      | some p ↦ some (
          if p == null
          then Outcome.not_registered
          else if bit sid (h.val p)
          then Outcome.send (r1 % 2 ^ 8) (r2 % 2 ^ 16)
          else Outcome.not_permitted)
    ]

-- For a key that is there the new mask is inserted once more.
pub vint_sender_add_permission : (fuel tree : ℕ) → (sender receiver irq_id : ℕ) → Heap → Option Heap
vint_sender_add_permission fuel tree sender receiver irq_id h =
    let key = key_of receiver irq_id in
    elim (rbtree_search fuel comp_func tree key h) [
      | none ↦ none
      | some p ↦
          rbtree_insert fuel comp_func tree key
            (if p == null then 2 ^ sender else set_bit sender (h.val p)) h
    ]

-- The answer of vint_sender_interface by the table of the permissions.
abbrev pub Answers : Tree → (sid r1 r2 : ℕ) → Outcome → Type 0
Answers t sid r1 r2 Outcome.not_registered = has_key (key_of r1 r2) t ≡ false
Answers t sid r1 r2 Outcome.not_permitted =
    (mask : ℕ) × (has_entry (key_of r1 r2) mask t ≡ true) × (bit sid mask ≡ false)
Answers t sid r1 r2 (Outcome.send vm irq_id) =
    (mask : ℕ) × (has_entry (key_of r1 r2) mask t ≡ true)
    × (bit sid mask ≡ true)
    × (vm ≡ r1 % 2 ^ 8)
    × (irq_id ≡ r2 % 2 ^ 16)

-- Over a table in an ordered tree, not higher than the fuel, vint_sender_interface comes to an end. It
-- sends an interrupt only if a mask that the table holds for the receiver and the interrupt has the
-- bit of the sender, and reports a missing entry only if there is none.
pub vint_sender_interface-Answers :
    (h : Heap) (t : Tree) (tree fuel sid r1 r2 : ℕ)
    → h.head tree ≡ root t
    → Is h t
    → IsOrdered t
    → KeysBelow (2 ^ 31) t
    → height t < fuel
    → (out : Outcome) × (vint_sender_interface fuel tree sid r1 r2 h ≡ some out)
      × Answers t sid r1 r2 out
unfolding vint_sender_interface
vint_sender_interface-Answers h t tree fuel sid r1 r2 e i o b f =
    let (p, found, what) =
      rbtree_search-Finds (2 ^ 31) comp_func comp_func-ComparesBelow (key_of r1 r2) (omega arith) h
        t tree fuel e i o b f in
    elim what [
      | inl (z, none_there) ↦
          (Outcome.not_registered, rw (found, vint_sender_interface) (rw z refl), none_there)
      | inr (w, k, entry) ↦
          let real = ==_of_ne p null (within-ne-null h p t i w) in
          elim (Bool-cases (bit sid (h.val p))) [
            | inl yes_bit ↦ (
              Outcome.send (r1 % 2 ^ 8) (r2 % 2 ^ 16),
              rw (found, vint_sender_interface) (rw (real, yes_bit) refl),
              (h.val p, entry, yes_bit, refl, refl),
            )
            | inr no_bit ↦ (
              Outcome.not_permitted,
              rw (found, vint_sender_interface) (rw (real, no_bit) refl),
              (h.val p, entry, no_bit),
            )
          ]
    ]
