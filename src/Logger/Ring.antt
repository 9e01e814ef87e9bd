-- ===== src/Logger/Ring.antt =====
-- The ring of logger.c keeps the characters that were put last.
use mathlib.Core.List.{append-nil, append_assoc}
use t_visor.Prelude.{
  ℕ, zero, suc, ◌+◌, ◌-◌, ◌%◌, ◌≤◌, ◌<◌, ◌≡◌, ◌⊎◌, inl, inr, refl, Bool-cases, List, [], ◌∷◌, ◌++◌,
  arith, ltb, leb, ◌==◌, if◌then◌else◌, ==_self, length, length-append,
}
use t_visor.TimerEvent.{put}
use t_visor.Logger.{Logger, logger_putc}

-- `n` characters from `i` on.
abbrev pub span : (ℕ → ℕ) → ℕ → ℕ → List ℕ
span area i zero = []
span area i (suc n) = area i ∷ span area (suc i) n

-- What the logger holds, the oldest character first.
abbrev pub contents : Logger → List ℕ
contents s =
    if leb s.start s.fin
    then span s.log_area s.start (s.fin - s.start)
    else span s.log_area s.start (s.max_len - s.start) ++ span s.log_area 0 s.fin

abbrev pub tail : List ℕ → List ℕ
tail [] = []
tail (x ∷ xs) = xs

-- The next contents of a bounded log: the oldest character goes if `cap` are there.
abbrev pub keep : ℕ → ℕ → List ℕ → List ℕ
keep cap c xs = (if length xs == cap then tail xs else xs) ++ c ∷ []

-- The ring has not wrapped yet, or it is full.
pub record Valid (s : Logger) : Type 0 where
  pub room : 2 ≤ s.max_len
  pub inside : s.fin < s.max_len
  pub shape : (s.start ≡ 0) ⊎ ((s.start ≡ s.fin + 1) × (s.start < s.max_len))
  pub closed : s.log_area s.fin ≡ 0

span-put :
    (area : ℕ → ℕ) (e c i n : ℕ) → (e < i) ⊎ (i + n ≤ e) → span (put area e c) i n ≡ span area i n
span-put area e c i zero o = refl
span-put area e c i (suc n) o = ground (arith, span-put area e c (suc i) n)

span-last : (area : ℕ → ℕ) (i n : ℕ) → span area i (suc n) ≡ span area i n ++ area (i + n) ∷ []
span-last area i zero = ground arith
span-last area i (suc n) = ground (arith, span-last area (suc i) n)

length-span : (area : ℕ → ℕ) (i n : ℕ) → length (span area i n) ≡ n
length-span area i zero = refl
length-span area i (suc n) = omega (arith, length-span area (suc i) n)

-- The area after a character, with the new end.
abbrev written : Logger → ℕ → ℕ → ℕ → ℕ
written s c fin = put (put s.log_area s.fin c) fin 0

module _ (s : Logger) (c : ℕ) (v : Valid s) where
  grows :
      s.start ≡ 0
      → s.fin + 1 < s.max_len
      → logger_putc c s
        ≡ record s { start = 0; fin = s.fin + 1; log_area = written s c (s.fin + 1) }
  unfolding logger_putc
  grows z h = let m : (s.fin + 1) % s.max_len ≡ s.fin + 1 = grind arith in ground arith

  fills :
      s.start ≡ 0
      → s.fin + 1 ≡ s.max_len
      → logger_putc c s ≡ record s { start = 1; fin = 0; log_area = written s c 0 }
  unfolding logger_putc
  fills z h =
      let m : (s.fin + 1) % s.max_len ≡ 0 = grind arith in
      let n : 1 % s.max_len ≡ 1 = grind (arith, v.room) in ground arith

  shifts :
      s.start ≡ s.fin + 1
      → s.fin + 2 < s.max_len
      → logger_putc c s
        ≡ record s { start = s.fin + 2; fin = s.fin + 1; log_area = written s c (s.fin + 1) }
  unfolding logger_putc
  shifts z h =
      let m : (s.fin + 1) % s.max_len ≡ s.fin + 1 = grind arith in
      let n : (s.start + 1) % s.max_len ≡ s.fin + 2 = grind arith in ground arith

  turns_round :
      s.start ≡ s.fin + 1
      → s.fin + 2 ≡ s.max_len
      → logger_putc c s
        ≡ record s { start = 0; fin = s.fin + 1; log_area = written s c (s.fin + 1) }
  unfolding logger_putc
  turns_round z h =
      let m : (s.fin + 1) % s.max_len ≡ s.fin + 1 = grind arith in
      let n : (s.start + 1) % s.max_len ≡ 0 = grind arith in ground arith

  -- The characters up to the end, and the new one behind them.
  lower :
      (fin' : ℕ)
      → (fin' ≡ s.fin + 1)
      → span (written s c fin') 0 (s.fin + 1) ≡ span s.log_area 0 s.fin ++ c ∷ []
  lower fin' e = ground (
    arith,
    span-put (put s.log_area s.fin c) fin' 0 0 (s.fin + 1),
    span-last (put s.log_area s.fin c) 0 s.fin,
    span-put s.log_area s.fin c 0 s.fin,
    ==_self s.fin,
  )

  keeps_growing :
      s.start ≡ 0
      → s.fin + 1 < s.max_len
      → contents (logger_putc c s) ≡ keep (s.max_len - 1) c (contents s)
  keeps_growing z h =
      rw (grows z h) (rw z (ground (arith, lower (s.fin + 1) refl, length-span s.log_area 0 s.fin)))

  keeps_filling :
      s.start ≡ 0
      → s.fin + 1 ≡ s.max_len
      → contents (logger_putc c s) ≡ keep (s.max_len - 1) c (contents s)
  keeps_filling z h =
      let k : s.fin ≡ suc (s.fin - 1) = omega (arith, v.room) in
      let len : s.max_len - 1 ≡ s.fin = omega arith in
      let new : span (written s c 0) 1 s.fin ≡ span s.log_area 1 (s.fin - 1) ++ c ∷ [] = ground (
        arith,
        span-put (put s.log_area s.fin c) 0 0 1 s.fin,
        span-last (put s.log_area s.fin c) 1 (s.fin - 1),
        span-put s.log_area s.fin c 1 (s.fin - 1),
        ==_self s.fin,
      ) in
      let old : span s.log_area 0 s.fin ≡ s.log_area 0 ∷ span s.log_area 1 (s.fin - 1) =
        ground arith in
      rw (fills z h) (
        rw (z, len, append-nil (span (written s c 0) 1 s.fin), new, old)
          (ground (arith, length-span s.log_area 1 (s.fin - 1))))

  keeps_shifting :
      s.start ≡ s.fin + 1
      → s.fin + 2 < s.max_len
      → contents (logger_putc c s) ≡ keep (s.max_len - 1) c (contents s)
  keeps_shifting z h =
      let rest = s.max_len - (s.fin + 2) in
      let k : s.max_len - (s.fin + 1) ≡ suc rest = omega arith in
      let upper : span (written s c (s.fin + 1)) (s.fin + 2) rest
          ≡ span s.log_area (s.fin + 2) rest =
        ground (
          arith,
          span-put (put s.log_area s.fin c) (s.fin + 1) 0 (s.fin + 2) rest,
          span-put s.log_area s.fin c (s.fin + 2) rest,
        ) in
      rw (shifts z h) (
        rw (z, k, upper, lower (s.fin + 1) refl)
          (ground (
            arith,
            length-append (span s.log_area (s.fin + 2) rest) (span s.log_area 0 s.fin),
            length-span s.log_area (s.fin + 2) rest,
            length-span s.log_area 0 s.fin,
            append_assoc (span s.log_area (s.fin + 2) rest) (span s.log_area 0 s.fin) (c ∷ []),
          )))

  keeps_turning :
      s.start ≡ s.fin + 1
      → s.fin + 2 ≡ s.max_len
      → contents (logger_putc c s) ≡ keep (s.max_len - 1) c (contents s)
  keeps_turning z h =
      let k : s.max_len - (s.fin + 1) ≡ 1 = omega arith in
      rw (turns_round z h)
        (rw (z, k) (ground (arith, lower (s.fin + 1) refl, length-span s.log_area 0 s.fin)))

  -- In a valid ring a character goes behind the others, and if `max_len - 1` of them are there the oldest is lost.
  pub contents-logger_putc : contents (logger_putc c s) ≡ keep (s.max_len - 1) c (contents s)
  contents-logger_putc = elim v.shape [
    | inl z ↦ elim (Bool-cases (ltb (s.fin + 1) s.max_len)) [
      | inl h ↦ keeps_growing z (ground arith)
      | inr h ↦ keeps_filling z (ground (arith, v.inside))
    ]
    | inr (z, b) ↦ elim (Bool-cases (ltb (s.fin + 2) s.max_len)) [
      | inl h ↦ keeps_shifting z (ground arith)
      | inr h ↦ keeps_turning z (ground arith)
    ]
  ]

  -- The ring stays well formed.
  pub logger_putc-Valid : Valid (logger_putc c s)
  logger_putc-Valid = elim v.shape [
    | inl z ↦ elim (Bool-cases (ltb (s.fin + 1) s.max_len)) [
      | inl h ↦ rw (grows z (ground arith)) (record {
        room = v.room;
        inside = ground arith;
        shape = inl refl;
        closed = ground (arith, ==_self (s.fin + 1));
      })
      | inr h ↦ rw (fills z (ground (arith, v.inside))) (record {
        room = v.room;
        inside = omega (arith, v.room);
        shape = inr (refl, omega (arith, v.room));
        closed = refl;
      })
    ]
    | inr (z, b) ↦ elim (Bool-cases (ltb (s.fin + 2) s.max_len)) [
      | inl h ↦ rw (shifts z (ground arith)) (record {
        room = v.room;
        inside = ground arith;
        shape = inr (omega arith, ground arith);
        closed = ground (arith, ==_self (s.fin + 1));
      })
      | inr h ↦ rw (turns_round z (ground arith)) (record {
        room = v.room;
        inside = ground arith;
        shape = inl refl;
        closed = ground (arith, ==_self (s.fin + 1));
      })
    ]
  ]
