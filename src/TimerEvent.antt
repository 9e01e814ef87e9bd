-- ===== src/TimerEvent.antt =====
-- timer_event.c: a pool of 16 slots, the free ones in `fl` (`_fl`), those of pending events in `el`
-- (`_el`), ordered by time, and the hypervisor timer of timer.c that is to fire for the first one.
-- A QUEUE_LIST is the sequence of its nodes (Queue.Ops has the operations on the links, and
-- Sorted.Walk the loop), and a slot's node is its index plus one, so that 0 is NULL.
pub mod Inv
pub mod Timer
pub mod Stale
mod Tests
use mathlib.Core.Option
use t_visor.Prelude.{
  ℕ, zero, suc, ◌+◌, ◌-◌, ◌%◌, ◌^◌, Bool, true, false, not, Option, none, some, List, [], ◌∷◌, ◌++◌,
  ◌==◌, if◌then◌else◌, has, erase, head?, is_nil,
}
use t_visor.Sorted.{before, insert_sorted}

-- `cntp_cval` and `cntp_ctl` of the hypervisor timer, as htimer_set_value and htimer_clear write
-- them and htimer_is_enable reads them.
pub record HyperTimer : Type 0 where
  pub compare_value : ℕ
  pub control : ℕ

unfoldable pub htimer_set_value : ℕ → HyperTimer
htimer_set_value next_time = record { compare_value = next_time % 2 ^ 64; control = 5 }

-- The instruction has the two words of 2^64 - 1 for output operands, so it writes what stands in the
-- registers that the compiler chose: `leftover`.
unfoldable pub htimer_clear : (leftover : ℕ) → HyperTimer
htimer_clear leftover = record { compare_value = leftover % 2 ^ 64; control = 2 }

unfoldable pub htimer_is_enable : HyperTimer → Bool
htimer_is_enable t = not (t.control == 2)

pub record TimerState : Type 0 where
  -- The fields of the slots. A callback `func` is a number.
  pub func : ℕ → ℕ
  pub arg : ℕ → ℕ
  pub time : ℕ → ℕ
  pub fl : List ℕ
  pub el : List ℕ
  pub htimer : HyperTimer
  -- What stands in the operand registers of htimer_clear at its next calls.
  pub leftover : ℕ → ℕ
  -- Calls of `tv_abort`, which prints and returns.
  pub aborts : ℕ

abbrev pub put : (ℕ → ℕ) → ℕ → ℕ → ℕ → ℕ
put f i v j = if i == j then v else f j

-- A call of htimer_clear.
abbrev pub clear_htimer : TimerState → TimerState
clear_htimer s = record s {
  htimer = htimer_clear (s.leftover 0);
  leftover = λ n. s.leftover (suc n);
}

-- The nodes of the 16 slots.
abbrev pub slots_from : ℕ → ℕ → List ℕ
slots_from i zero = []
slots_from i (suc n) = i ∷ slots_from (suc i) n

pub timer_event_init : TimerState → TimerState
timer_event_init s = record s { fl = slots_from 1 16; el = [] }

-- The part of `timer_event_insert` behind `alloc`, with the slot `que`.
insert_slot : TimerState → ℕ → ℕ → ℕ → ℕ → TimerState
insert_slot s que t f a =
    let time = put s.time que t in
    let el = insert_sorted time que s.el in
    let first = is_nil (before time (time que) s.el) in
    record s {
      func = put s.func que f;
      arg = put s.arg que a;
      time = time;
      el = el;
      htimer = if first then htimer_set_value t else s.htimer;
      aborts = if has que el then s.aborts else s.aborts + 1;
    }

-- `none` is the write through the null pointer that `alloc` gives when no slot is free.
pub timer_event_insert : TimerState → ℕ → ℕ → ℕ → Option (ℕ × TimerState)
unfolding insert_slot
timer_event_insert s t f a = elim s.fl [
  | [] ↦ none
  | que ∷ rest ↦ some (que, insert_slot (record s { fl = rest }) que t f a)
]

-- The end of `timer_event_tick`, behind the callback.
pub rearm : TimerState → TimerState
rearm s = elim s.el [ [] ↦ s | que ∷ rest ↦ record s { htimer = htimer_set_value (s.time que) } ]

-- The slot is free again before the callback runs, so the callback may take it. A callback is a
-- function of its argument and the state; `none` is a fault in it.
module _ (call : ℕ → ℕ → TimerState → Option TimerState) where
  pub timer_event_tick : TimerState → Option TimerState
  unfolding rearm
  timer_event_tick s = elim s.el [
    | [] ↦ some (if htimer_is_enable s.htimer then record s { aborts = s.aborts + 1 } else s)
    | que ∷ rest ↦
        Option.map rearm
          (call (s.func que) (s.arg que) (record s { el = rest; fl = s.fl ++ que ∷ [] }))
  ]

  -- The interrupt handler of the hypervisor timer, `ht_handle` of irq_handler.c, but for its writes to
  -- the interrupt controller.
  pub ht_handle : TimerState → Option TimerState
  ht_handle s = timer_event_tick (clear_htimer s)

-- `&(_el.tail)`, which is no slot.
abbrev pub el_tail : ℕ
el_tail = 17

-- What `timer_event_remove` does to the timer behind `queue_remove`.
retime : TimerState → ℕ → TimerState
retime s que =
    let first : ℕ = elim s.el [ [] ↦ el_tail | x ∷ rest ↦ x ] in
    if first == que
    then (if is_nil s.el
        then clear_htimer s
        else record s { htimer = htimer_set_value (s.time first) })
    else s

pub timer_event_remove : TimerState → ℕ → TimerState
unfolding retime
timer_event_remove s que =
    if que == 0
    then s
    else if has que s.el
    then (let s' = retime (record s { el = erase que s.el }) que in
        record s' { fl = s'.fl ++ que ∷ [] })
    else s
