-- ===== src/TimerEvent/Tests.antt =====
-- A state of timer_event.c with two pending events.
use mathlib.Core.Option
use t_visor.Prelude.{ℕ, ◌+◌, ◌*◌, ◌≡◌, refl, Option, some, [], ◌∷◌, ◌++◌, arith}
use t_visor.Sorted.{before, after, insert_sorted}
use t_visor.TimerEvent.{
  insert_slot, TimerState, clear_htimer, htimer_set_value, timer_event_insert, timer_event_tick,
  timer_event_remove, rearm, ht_handle, slots_from, put,
}
use t_visor.TimerEvent.Inv.{Valid, Ran, timer_event_insert-Valid, timer_event_tick-Valid}
use t_visor.TimerEvent.Timer.{Armed, timer_event_insert-Armed, timer_event_tick-Armed}
use t_visor.TimerEvent.Stale.{timer_event_remove-first_stale}

-- The slots 1 and 2 are pending, for the times 10 and 20.
abbrev pub two : TimerState
two = record {
  func = λ q. q;
  arg = λ q. q + 100;
  time = λ q. q * 10;
  fl = slots_from 3 14;
  el = 1 ∷ 2 ∷ [];
  htimer = htimer_set_value 10;
  leftover = λ n. n;
  aborts = 0;
}

two-Valid : Valid two
two-Valid = record {
  sorted = ground arith;
  apart = ground arith;
  slots = λ q h. ground arith;
  total = refl;
}

-- A callback that returns and changes nothing.
abbrev pub no_op : ℕ → ℕ → TimerState → Option TimerState
no_op f a s = some s

no_op-Valid : (f a : ℕ) (s s' : TimerState) → Valid s → no_op f a s ≡ some s' → Valid s'
no_op-Valid f a s s' v e = let same : s ≡ s' = cc in rw same at v

-- Slot 3 filled for the time 15, and the state after it.
abbrev three : TimerState
three = record two {
  func = put two.func 3 7;
  arg = put two.arg 3 8;
  time = put two.time 3 15;
  fl = slots_from 4 13;
  el = 1 ∷ 3 ∷ 2 ∷ [];
}

inserted : timer_event_insert two 15 7 8 ≡ some (3, three)
unfolding timer_event_insert insert_slot insert_sorted before after
inserted = refl

timer_event_insert-Valid_example :
    (s' : TimerState) × (timer_event_insert two 15 7 8 ≡ some (3, s'))
    × Valid s'
    × (s'.el ≡ insert_sorted s'.time 3 (1 ∷ 2 ∷ []))
    × (s'.fl ≡ slots_from 4 13)
    × (s'.time 3 ≡ 15)
    × (s'.func 3 ≡ 7)
    × (s'.arg 3 ≡ 8)
    × (s'.aborts ≡ 0)
timer_event_insert-Valid_example =
    timer_event_insert-Valid two two-Valid 15 7 8 3 (slots_from 4 13) refl

timer_event_insert-Armed_example : Armed three
timer_event_insert-Armed_example =
    timer_event_insert-Armed two three 15 7 8 3 two-Valid refl inserted

-- The state after the first event has run.
abbrev ticked : TimerState
ticked = record two { fl = slots_from 3 14 ++ 1 ∷ []; el = 2 ∷ []; htimer = htimer_set_value 20 }

ran : timer_event_tick no_op two ≡ some ticked
unfolding timer_event_tick rearm
ran = refl

timer_event_tick-Valid_example : Valid ticked × Ran no_op two ticked
timer_event_tick-Valid_example = timer_event_tick-Valid no_op no_op-Valid two ticked two-Valid ran

timer_event_tick-Armed_example : Armed ticked
timer_event_tick-Armed_example = timer_event_tick-Armed no_op two ticked ran

timer_event_remove-first_stale_example :
    ((timer_event_remove two 1).htimer ≡ htimer_set_value 10)
    × (ht_handle no_op (timer_event_remove two 1)
        ≡ Option.map rearm (
            some
              (clear_htimer (record two { el = []; fl = (slots_from 3 14 ++ 1 ∷ []) ++ 2 ∷ [] }))))
timer_event_remove-first_stale_example =
    timer_event_remove-first_stale no_op two 1 2 [] two-Valid refl refl
