-- ===== src/TimerEvent/Timer.antt =====
-- When the hypervisor timer of timer_event.c fires for the first pending event.
use t_visor.Prelude.{
  sym, inl, inr, subst, Distinct, Distinct-append, ℕ, ◌≡◌, ◌≢◌, refl, false, Option, some, List, [],
  ◌∷◌, ◌++◌, arith, has,
}
use t_visor.Sorted.{before, insert_sorted, after}
use t_visor.TimerEvent.{
  TimerState, htimer_set_value, timer_event_insert, timer_event_tick, insert_slot, rearm, put,
}
use t_visor.TimerEvent.Inv.{Valid, List-cases, tick_ran, el-tick_nil}

-- The timer is set for the first pending event.
abbrev pub ArmedFor : TimerState → List ℕ → Type 0
ArmedFor s [] = Unit {0}
ArmedFor s (q ∷ rest) = s.htimer ≡ htimer_set_value (s.time q)

abbrev pub Armed : TimerState → Type 0
Armed s = ArmedFor s s.el

rearm-ArmedFor : (m : TimerState) (xs : List ℕ) → m.el ≡ xs → ArmedFor (rearm m) xs
unfolding rearm
rearm-ArmedFor m [] e = tt
rearm-ArmedFor m (q ∷ rest) e = ground arith

insert-ArmedFor :
    (s : TimerState) (q t f a : ℕ) (xs : List ℕ)
    → s.el ≡ xs
    → has q xs ≡ false
    → ArmedFor s xs
    → ArmedFor (insert_slot s q t f a) (insert_sorted (put s.time q t) q xs)
unfolding insert_slot insert_sorted before after
insert-ArmedFor s q t f a [] e o h = ground arith
insert-ArmedFor s q t f a (x ∷ xs) e o h = ground arith

rearm-Armed : (m : TimerState) → Armed (rearm m)
unfolding rearm
rearm-Armed m = elim (List-cases m.el) [
  | inl e ↦ rw (e, rearm) (rw e tt)
  | inr (q, rest, e) ↦ rw (e, rearm) (rw e refl)
]

no_slot :
    (s : TimerState) (t f a : ℕ) (s' : TimerState) (q : ℕ)
    → s.fl ≡ []
    → timer_event_insert s t f a ≢ some (q, s')
unfolding timer_event_insert
no_slot s t f a s' q n = λ e. ground arith

took :
    (s s' : TimerState) (t f a q x : ℕ) (rest : List ℕ)
    → Valid s
    → Armed s
    → s.fl ≡ x ∷ rest
    → timer_event_insert s t f a ≡ some (q, s')
    → Armed s'
unfolding timer_event_insert
took s s' t f a q x rest v h n e =
    let (de, dr, ap) =
      Distinct-append s.el (x ∷ rest) (subst (λ l. Distinct (s.el ++ l)) n v.apart) in
    let out : has x s.el ≡ false = ground (arith, ap x) in
    let e' : s' ≡ insert_slot (record s { fl = rest }) x t f a = ground arith in
    rw e' (insert-ArmedFor (record s { fl = rest }) x t f a s.el refl out h)

-- A new event leaves the timer set for the first pending one.
pub timer_event_insert-Armed :
    (s s' : TimerState) (t f a q : ℕ)
    → Valid s
    → Armed s
    → timer_event_insert s t f a ≡ some (q, s')
    → Armed s'
timer_event_insert-Armed s s' t f a q v h e = elim (List-cases s.fl) [
  | inl n ↦ absurd (no_slot s t f a s' q n e)
  | inr (x, rest, n) ↦ took s s' t f a q x rest v h n e
]

-- After the handler the timer is set for the first pending event, however it stood before.
pub timer_event_tick-Armed :
    (call : ℕ → ℕ → TimerState → Option TimerState) (s s' : TimerState)
    → timer_event_tick call s ≡ some s'
    → Armed s'
timer_event_tick-Armed call s s' t = elim (List-cases s.el) [
  | inl e ↦ subst (ArmedFor s') (sym (el-tick_nil call s e s' t)) tt
  | inr (q, rest, e) ↦ let (m, c, r) = tick_ran call s q rest e s' t in rw r (rearm-Armed m)
]
