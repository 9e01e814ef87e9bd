-- ===== src/TimerEvent/Stale.antt =====
-- The hypervisor timer when the first pending event of timer_event.c is removed.
use mathlib.Core.Option
use t_visor.Prelude.{ℕ, ◌≡◌, Option, List, ◌∷◌, [], ◌++◌, arith, subst}
use t_visor.TimerEvent.{
  TimerState, clear_htimer, htimer_set_value, timer_event_remove, rearm, ht_handle,
}
use t_visor.TimerEvent.Inv.{Valid, timer_event_remove-freed, timer_event_tick-cons}
use t_visor.TimerEvent.Timer.{Armed, ArmedFor}

-- If the first pending event `x` is removed while `y` is due later, the timer still stands at the
-- time of `x`, and when it fires there the handler runs the callback of `y`, whatever the time of
-- `y` is.
pub timer_event_remove-first_stale :
    (call : ℕ → ℕ → TimerState → Option TimerState) (s : TimerState) (x y : ℕ) (ys : List ℕ)
    → Valid s
    → Armed s
    → s.el ≡ x ∷ y ∷ ys
    → ((timer_event_remove s x).htimer ≡ htimer_set_value (s.time x))
      × (ht_handle call (timer_event_remove s x)
          ≡ Option.map rearm (
              call
                (s.func y)
                (s.arg y)
                (clear_htimer (record s { el = ys; fl = (s.fl ++ x ∷ []) ++ y ∷ [] }))))
unfolding ht_handle
timer_event_remove-first_stale call s x y ys v h e =
    let gone = timer_event_remove-freed s x v (ground arith) in
    (rw gone (subst (ArmedFor s) e h), rw gone (timer_event_tick-cons call _ y ys (ground arith)))
