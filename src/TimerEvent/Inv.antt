-- ===== src/TimerEvent/Inv.antt =====
-- The slots of timer_event.c are never lost or used twice, and the pending events stay in order.
use mathlib.Core.Option
use t_visor.Prelude.{
  map-some, ◌∙◌, ◌⊎◌, subst, inl, inr, Bool-cases, has-erase, Distinct-erase, length-erase, ℕ, ◌+◌,
  ◌≤◌, ◌≡◌, refl, sym, true, false, Option, some, List, [], ◌∷◌, ◌++◌, arith, has, has-append,
  erase, length, length-append, if◌then◌else◌, Distinct, Distinct-append, append-Distinct,
}
use t_visor.Sorted.{insert_sorted}
use t_visor.Sorted.Laws.{
  From-other, Sorted, erase-Sorted, insert_sorted-Sorted, has-insert_sorted, Distinct-insert_sorted,
  length-insert_sorted,
}
use t_visor.TimerEvent.{
  TimerState, put, htimer_is_enable, timer_event_init, timer_event_insert, timer_event_tick,
  timer_event_remove, insert_slot, rearm,
}

-- Every slot is pending or free and never both; the pending ones are ordered by time.
pub record Valid (s : TimerState) : Type 0 where
  pub sorted : Sorted s.time s.el
  pub apart : Distinct (s.el ++ s.fl)
  pub slots : (q : ℕ) → has q (s.el ++ s.fl) ≡ true → (1 ≤ q) × (q ≤ 16)
  pub total : length s.el + length s.fl ≡ 16

-- At the start all 16 slots are free.
pub timer_event_init-Valid : (s : TimerState) → Valid (timer_event_init s)
unfolding timer_event_init
timer_event_init-Valid s = record {
  sorted = tt;
  apart = ground arith;
  slots = λ q h. ground arith;
  total = refl;
}

module _ (s : TimerState) (v : Valid s) (t f a : ℕ) where
  -- If a slot is free, `timer_event_insert` takes the first one, fills it, puts it among the pending
  -- ones by its time, and neither aborts nor faults.
  pub timer_event_insert-Valid :
      (q : ℕ) (rest : List ℕ)
      → s.fl ≡ q ∷ rest
      → (s' : TimerState) × (timer_event_insert s t f a ≡ some (q, s'))
        × Valid s'
        × (s'.el ≡ insert_sorted s'.time q s.el)
        × (s'.fl ≡ rest)
        × (s'.time q ≡ t)
        × (s'.func q ≡ f)
        × (s'.arg q ≡ a)
        × (s'.aborts ≡ s.aborts)
  unfolding timer_event_insert
  timer_event_insert-Valid q rest e =
      let p : ℕ → ℕ = put s.time q t in
      let (de, dr, ap) =
        Distinct-append s.el (q ∷ rest) (subst (λ l. Distinct (s.el ++ l)) e v.apart) in
      let out : has q s.el ≡ false = ground (arith, ap q) in
      (
        insert_slot (record s { fl = rest }) q t f a,
        ground arith,
        record {
          sorted =
              insert_sorted-Sorted p q s.el
                (From-other s.time p 0 s.el (λ x h. ground arith) v.sorted);
          apart =
              append-Distinct (insert_sorted p q s.el) rest (Distinct-insert_sorted p q s.el de out)
                dr.1 (λ b h. ground (arith, has-insert_sorted p b q s.el, ap b));
          slots = λ b h. ground (
            arith,
            has-append b (insert_sorted p q s.el) rest,
            has-insert_sorted p b q s.el,
            has-append b s.el s.fl,
            v.slots b,
          );
          total = ground (arith, length-insert_sorted p q s.el, v.total);
        },
        refl,
        refl,
        ground arith,
        ground arith,
        ground arith,
        ground (arith, has-insert_sorted p q q s.el),
      )

Valid-same :
    (s s' : TimerState) → Valid s → s'.time ≡ s.time → s'.el ≡ s.el → s'.fl ≡ s.fl → Valid s'
Valid-same s s' v t e f = record {
  sorted = rw (t, e) v.sorted;
  apart = rw (e, f) v.apart;
  slots = λ q h. v.slots q (rw (e, f) at h);
  total = rw (e, f) v.total;
}

-- A pending slot becomes the last of the free ones.
abbrev pub freed : TimerState → ℕ → TimerState
freed s q = record s { el = erase q s.el; fl = s.fl ++ q ∷ [] }

freed-Valid : (s : TimerState) (q : ℕ) → Valid s → has q s.el ≡ true → Valid (freed s q)
freed-Valid s q v h =
    let (de, df, ap) = Distinct-append s.el s.fl v.apart in
    record {
      sorted = erase-Sorted s.time q s.el v.sorted;
      apart =
          append-Distinct (erase q s.el) (s.fl ++ q ∷ []) (Distinct-erase q s.el de)
            (append-Distinct s.fl (q ∷ []) df (refl, tt) (λ b i. ground (arith, ap q, ap b)))
            (λ b i. ground (arith, has-erase b q s.el de, has-append b s.fl (q ∷ []), ap b));
      slots = λ b i. ground (
        arith,
        has-append b (erase q s.el) (s.fl ++ q ∷ []),
        has-append b s.fl (q ∷ []),
        has-erase b q s.el de,
        has-append b s.el s.fl,
        v.slots b,
      );
      total = omega (arith, length-erase q s.el h, length-append s.fl (q ∷ []), v.total);
    }

rearm-Valid : (s : TimerState) → Valid s → Valid (rearm s)
unfolding rearm
rearm-Valid s v = Valid-same s (rearm s) v (ground arith) (ground arith) (ground arith)

module _ (call : ℕ → ℕ → TimerState → Option TimerState) (s : TimerState) where
  pub tick_nil :
      s.el ≡ [] → (s' : TimerState) → timer_event_tick call s ≡ some s' → Valid s → Valid s'
  unfolding timer_event_tick
  tick_nil e s' t v = Valid-same s s' v (ground arith) (ground arith) (ground arith)

  pub el-tick_nil : s.el ≡ [] → (s' : TimerState) → timer_event_tick call s ≡ some s' → s'.el ≡ []
  unfolding timer_event_tick
  el-tick_nil e s' t = ground arith

  -- With a pending event, the first slot is freed, its callback runs, and the timer is set for the
  -- first event that is then pending.
  pub timer_event_tick-cons :
      (q : ℕ) (rest : List ℕ)
      → s.el ≡ q ∷ rest
      → timer_event_tick call s
        ≡ Option.map rearm (call (s.func q) (s.arg q) (record s { el = rest; fl = s.fl ++ q ∷ [] }))
  unfolding timer_event_tick
  timer_event_tick-cons q rest e = rw (e, timer_event_tick)

  pub tick_ran :
      (q : ℕ) (rest : List ℕ)
      → s.el ≡ q ∷ rest
      → (s' : TimerState) → timer_event_tick call s ≡ some s'
      → (m : TimerState) × (call (s.func q) (s.arg q) (freed s q) ≡ some m) × (s' ≡ rearm m)
  tick_ran q rest e s' t =
      let same : freed s q ≡ record s { el = rest; fl = s.fl ++ q ∷ [] } = ground arith in
      map-some rearm (call (s.func q) (s.arg q) (freed s q)) s'
        (rw same (sym (timer_event_tick-cons q rest e) ∙ t))

pub List-cases : (xs : List ℕ) → (xs ≡ []) ⊎ ((x : ℕ) × (rest : List ℕ) × (xs ≡ x ∷ rest))
List-cases [] = inl refl
List-cases (x ∷ rest) = inr (x, rest, refl)

-- What `timer_event_tick` did: nothing but a message where no event is pending; else the callback of the
-- first event ran, with its slot the last of the free ones, and the timer was set behind it.
abbrev pub Ran : (call : ℕ → ℕ → TimerState → Option TimerState) → TimerState → TimerState → Type 0
Ran call s s' =
    ((s.el ≡ [])
      × (s' ≡ (if htimer_is_enable s.htimer then record s { aborts = s.aborts + 1 } else s)))
    ⊎ ((q : ℕ) × (rest : List ℕ) × (s.el ≡ q ∷ rest)
        × (m : TimerState) × (call (s.func q) (s.arg q)
              (record s { el = rest; fl = s.fl ++ q ∷ [] })
            ≡ some m)
        × (s' ≡ rearm m))

tick_idle :
    (call : ℕ → ℕ → TimerState → Option TimerState) (s s' : TimerState)
    → s.el ≡ []
    → timer_event_tick call s ≡ some s'
    → s' ≡ (if htimer_is_enable s.htimer then record s { aborts = s.aborts + 1 } else s)
unfolding timer_event_tick
tick_idle call s s' e t = ground arith

-- `timer_event_tick` runs the callback of the first pending event, with its argument, after its slot
-- was put behind the free ones, and then sets the timer anew; with no pending event it only prints a
-- message, and that only if the timer is enabled. If the callbacks keep the slots, so does it.
pub timer_event_tick-Valid :
    (call : ℕ → ℕ → TimerState → Option TimerState)
    → ((f a : ℕ) (s s' : TimerState) → Valid s → call f a s ≡ some s' → Valid s')
    → (s s' : TimerState) → Valid s
    → timer_event_tick call s ≡ some s'
    → Valid s' × Ran call s s'
timer_event_tick-Valid call keep s s' v t = elim (List-cases s.el) [
  | inl e ↦ (tick_nil call s e s' t v, inl (e, tick_idle call s s' e t))
  | inr (q, rest, e) ↦
      let (m, c, r) = tick_ran call s q rest e s' t in
      let same : freed s q ≡ record s { el = rest; fl = s.fl ++ q ∷ [] } = ground arith in
      (
        subst Valid (sym r) (
            rearm-Valid m
              (keep (s.func q) (s.arg q) (freed s q) m (freed-Valid s q v (ground arith)) c)),
        inr (q, rest, e, m, rw same at c, r),
      )
]

remove_other : (s : TimerState) (q : ℕ) → has q s.el ≡ false → timer_event_remove s q ≡ s
unfolding timer_event_remove
remove_other s q h = ground arith

-- Taking a pending event out moves its slot to the end of the free ones. The timer is not set.
pub timer_event_remove-freed :
    (s : TimerState) (q : ℕ)
    → Valid s
    → has q s.el ≡ true
    → timer_event_remove s q ≡ record s { el = erase q s.el; fl = s.fl ++ q ∷ [] }
unfolding timer_event_remove
timer_event_remove-freed s q v h =
    let (de, dr, ap) = Distinct-append s.el s.fl v.apart in
    let range = v.slots q (ground (arith, has-append q s.el s.fl)) in
    elim (List-cases (erase q s.el)) [
      | inl e ↦ ground arith
      | inr (x, rest, e) ↦ ground (arith, has-erase x q s.el de)
    ]

-- Removal keeps the slots, whatever address it is given.
pub timer_event_remove-Valid : (s : TimerState) (q : ℕ) → Valid s → Valid (timer_event_remove s q)
timer_event_remove-Valid s q v = elim (Bool-cases (has q s.el)) [
  | inl h ↦ rw (timer_event_remove-freed s q v h) (freed-Valid s q v h)
  | inr h ↦ rw (remove_other s q h) v
]
