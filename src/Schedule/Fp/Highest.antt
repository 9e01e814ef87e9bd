-- ===== src/Schedule/Fp/Highest.antt =====
-- fp_scheduler.c runs the first ready VCPU of the highest priority.
use t_visor.Prelude.{
  ℕ, zero, suc, ◌+◌, ◌≤◌, ◌<◌, ◌≡◌, refl, Bool-cases, ◌∙◌, inl, inr, ◌⊎◌, eq_of_==, true, Option,
  none, some, List, [], ◌∷◌, ◌++◌, arith, ltb, ◌==◌,
}
use t_visor.TimerEvent.Inv.{List-cases}
use t_visor.Schedule.{View}
use t_visor.Schedule.Fp.{
  FpState, max_priority, set_list, scan, max_pri, clamp, or_executing, my_schedule, my_block,
}

-- The list `p` is the first one from `i` on that is not empty, below `i + n`; its first slot was
-- taken, and it belongs to `v`.
pub record Found (s : FpState) (i n : ℕ) (v : ℕ) (s' : FpState) : Type 0 where
  pub pri : ℕ
  pub que : ℕ
  pub rest : List ℕ
  pub from : i ≤ pri
  pub below : pri < i + n
  pub in_array : pri < max_priority
  pub ready : s.ls pri ≡ que ∷ rest
  pub owner : v ≡ s.vcpu que
  pub popped : s' ≡ record s { ls = set_list s.ls pri rest }
  pub higher_empty : (j : ℕ) → i ≤ j → j < pri → s.ls j ≡ []

scan-Found :
    (n i : ℕ) (s : FpState) (v : ℕ) (s' : FpState)
    → scan n i s ≡ some (some v, s')
    → Found s i n v s'
unfolding scan
scan-Found zero i s v s' e = absurd (cc)
scan-Found (suc n) i s v s' e = elim (List-cases (s.ls i)) [
  | inl empty ↦
      let f = scan-Found n (suc i) s v s' (ground arith) in
      record {
        pri = f.pri;
        que = f.que;
        rest = f.rest;
        from = omega (arith, f.from);
        below = omega (arith, f.below);
        in_array = f.in_array;
        ready = f.ready;
        owner = f.owner;
        popped = f.popped;
        higher_empty = λ j h k. elim (Bool-cases (i == j)) [
          | inl at ↦ ground arith
          | inr past ↦ f.higher_empty j (ground arith) k
        ];
      }
  | inr (q, rest, here) ↦ record {
    pri = i;
    que = q;
    rest = rest;
    from = omega arith;
    below = omega arith;
    in_array = ground arith;
    ready = here;
    owner = ground arith;
    popped = ground arith;
    higher_empty = λ j h k. absurd (omega arith);
  }
]

scan_empty :
    (n i : ℕ) (s : FpState)
    → i + n ≤ max_priority
    → ((j : ℕ) → i ≤ j → j < i + n → s.ls j ≡ [])
    → scan n i s ≡ some (none, s)
unfolding scan
scan_empty zero i s h e = refl
scan_empty (suc n) i s h e =
    let rest = scan_empty n (suc i) s (omega arith) (λ j a b. e j (omega arith) (omega arith)) in
    let here = e i (omega arith) (omega arith) in ground arith

scan_first :
    (n i p : ℕ) (s : FpState) (q : ℕ) (rest : List ℕ)
    → i ≤ p
    → p < i + n
    → p < max_priority
    → ((j : ℕ) → i ≤ j → j < p → s.ls j ≡ [])
    → s.ls p ≡ q ∷ rest
    → scan n i s ≡ some (some (s.vcpu q), record s { ls = set_list s.ls p rest })
unfolding scan
scan_first zero i p s q rest g h b e r = absurd (omega arith)
scan_first (suc n) i p s q rest g h b e r = elim (Bool-cases (i == p)) [
  | inl at ↦ rw (eq_of_== i p at) (ground arith)
  | inr past ↦
      let here = e i (omega arith) (ground arith) in
      let later =
        scan_first n (suc i) p s q rest (ground arith) (omega arith) b
          (λ j a c. e j (omega arith) c) r in
      ground arith
]

-- The scan found nothing.
pub record Idle (s : FpState) (i n : ℕ) (s' : FpState) : Type 0 where
  pub same : s' ≡ s
  pub all_empty : (j : ℕ) → i ≤ j → j < i + n → (s.ls j ≡ []) × (j < max_priority)

scan-Idle : (n i : ℕ) (s s' : FpState) → scan n i s ≡ some (none, s') → Idle s i n s'
unfolding scan
scan-Idle zero i s s' e = record { same = cc; all_empty = λ j h k. absurd (omega arith) }
scan-Idle (suc n) i s s' e = elim (List-cases (s.ls i)) [
  | inl empty ↦
      let r = scan-Idle n (suc i) s s' (ground arith) in
      record {
        same = r.same;
        all_empty = λ j h k. elim (Bool-cases (i == j)) [
          | inl at ↦ ground arith
          | inr past ↦ r.all_empty j (ground arith) (omega arith)
        ];
      }
  | inr (q, rest, here) ↦ absurd (ground arith)
]

abbrev pub Picked : Option ℕ → FpState → Option ℕ → FpState → Type 0
Picked exe s r s' =
    ((v : ℕ) × (r ≡ some v) × Found s 0 (suc (max_pri exe s)) v s')
    ⊎ ((r ≡ exe) × Idle s 0 (suc (max_pri exe s)) s')

or_executing-Picked :
    (exe : Option ℕ) (s : FpState) (r : Option ℕ) (s' : FpState) (o : Option (Option ℕ × FpState))
    → scan (suc (max_pri exe s)) 0 s ≡ o
    → or_executing exe o ≡ some (r, s')
    → Picked exe s r s'
or_executing-Picked exe s r s' none e h = absurd (cc)
or_executing-Picked exe s r s' (some (none, t)) e h =
    inr (cc, scan-Idle (suc (max_pri exe s)) 0 s s' (e ∙ ground arith))
or_executing-Picked exe s r s' (some (some v, t)) e h =
    inl (v, cc, scan-Found (suc (max_pri exe s)) 0 s v s' (e ∙ ground arith))

-- `my_schedule` picks the first slot of the first list that is not empty, up to the priority of the
-- executing VCPU, and takes that slot out; where all those lists are empty the executing VCPU goes
-- on and nothing changes.
pub my_schedule-Picked :
    (view : View) (s s' : FpState) (r : Option ℕ)
    → my_schedule view s ≡ some (r, s')
    → Picked view.executing s r s'
unfolding my_schedule
my_schedule-Picked view s s' r h = or_executing-Picked view.executing s r s' _ refl h

scan_total :
    (n i : ℕ) (s : FpState)
    → i + n ≤ max_priority
    → (r : Option ℕ) × (s' : FpState) × (scan n i s ≡ some (r, s'))
unfolding scan
scan_total zero i s h = (none, s, refl)
scan_total (suc n) i s h = elim (List-cases (s.ls i)) [
  | inl empty ↦ let (r, s', t) = scan_total n (suc i) s (omega arith) in (r, s', ground arith)
  | inr (q, rest, here) ↦ (some (s.vcpu q), record s { ls = set_list s.ls i rest }, ground arith)
]

or_executing_total :
    (exe : ℕ) (r : Option ℕ) (s : FpState)
    → (r' : Option ℕ) × (s' : FpState) × (or_executing (some exe) (some (r, s)) ≡ some (r', s'))
or_executing_total exe none s = (some exe, s, refl)
or_executing_total exe (some v) s = (some v, s, refl)

scan_overrun :
    (n i : ℕ) (s : FpState)
    → i ≤ max_priority
    → max_priority < i + n
    → ((j : ℕ) → j < max_priority → s.ls j ≡ [])
    → scan n i s ≡ none
unfolding scan
scan_overrun zero i s l h e = absurd (omega arith)
scan_overrun (suc n) i s l h e = elim (Bool-cases (ltb i max_priority)) [
  | inl inside ↦
      let rest = scan_overrun n (suc i) s (ground arith) (omega arith) e in ground (arith, e i)
  | inr out ↦ ground arith
]

-- While a VCPU runs, `my_schedule` never reads beyond the array.
pub my_schedule_total :
    (view : View) (s : FpState) (exe : ℕ)
    → view.executing ≡ some exe
    → (r : Option ℕ) × (s' : FpState) × (my_schedule view s ≡ some (r, s'))
unfolding my_schedule
my_schedule_total view s exe e =
    let (r, s', t) = scan_total (suc (clamp (s.priority exe))) 0 s (ground arith) in
    rw (e, t) (or_executing_total exe r s')

-- With no VCPU running and none ready, `my_schedule` reads the list behind the end of the array.
pub my_schedule_overrun :
    (view : View) (s : FpState)
    → view.executing ≡ none
    → ((j : ℕ) → j < max_priority → s.ls j ≡ [])
    → my_schedule view s ≡ none
unfolding my_schedule
my_schedule_overrun view s e empty =
    rw e (rw (scan_overrun 9 0 s (omega arith) (omega arith) empty) refl)

turn :
    (s : FpState) (exe p q x : ℕ) (rest : List ℕ) (executing : Option ℕ)
    → executing ≡ some exe
    → clamp (s.priority exe) ≡ p
    → p < max_priority
    → ((j : ℕ) → j < p → s.ls j ≡ [])
    → s.ls p ≡ q ∷ rest
    → let s1 : FpState = record s { ls = set_list s.ls p (s.ls p ++ x ∷ []); flag = true } in
      (s' : FpState) × (or_executing executing (scan (suc (max_pri executing s1)) 0 s1)
        ≡ some (some (s.vcpu q), s'))
      × (s'.ls p ≡ rest ++ x ∷ [])
      × (s'.flag ≡ true)
turn s exe p q x rest executing e c b empty ready =
    let s1 : FpState = record s { ls = set_list s.ls p (s.ls p ++ x ∷ []); flag = true } in
    let found =
      scan_first (suc p) 0 p s1 q (rest ++ x ∷ []) (omega arith) (omega arith) b
        (λ j h k. ground (arith, empty j)) (ground arith) in
    (
      record s1 { ls = set_list s1.ls p (rest ++ x ∷ []) },
      rw (e, c, found) refl,
      ground arith,
      refl,
    )

-- Among VCPUs of one priority the turn goes round: when the running one is blocked by preemption,
-- the longest waiting one of that priority is picked, and the blocked one is the last to follow, if
-- no higher priority is ready.
pub my_schedule-my_block :
    (view view' : View) (s : FpState) (exe q : ℕ) (rest : List ℕ)
    → view'.executing ≡ some exe
    → let p = clamp (s.priority exe) in
      ((j : ℕ) → j < p → s.ls j ≡ [])
      → s.ls p ≡ q ∷ rest
      → (s' : FpState) × (my_schedule view' (my_block view exe s) ≡ some (some (s.vcpu q), s'))
        × (s'.ls p ≡ rest ++ view.sched_state exe ∷ [])
        × (s'.flag ≡ true)
unfolding my_schedule my_block
my_schedule-my_block view view' s exe q rest e empty ready =
    let p = clamp (s.priority exe) in
    turn s exe p q (view.sched_state exe) rest view'.executing e refl (ground arith) empty ready
