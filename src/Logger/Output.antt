-- ===== src/Logger/Output.antt =====
-- What logger_output of logger.c sends.
use t_visor.Prelude.{
  ℕ, zero, suc, ◌+◌, ◌-◌, ◌<◌, ◌≡◌, ◌≢◌, inl, inr, refl, ap, Bool-cases, some, List, [], ◌∷◌, ◌++◌,
  arith, leb, ◌==◌, if◌then◌else◌, ==_of_ne,
}
use t_visor.Logger.{Logger, sent, tv_puts, put_rest, no_log, logger_output}
use t_visor.Logger.Ring.{span, contents, Valid}

-- The characters as they are sent.
abbrev pub sent_all : List ℕ → List ℕ
sent_all [] = []
sent_all (x ∷ xs) = sent x (sent_all xs)

-- No character is NUL.
abbrev pub NoNul : List ℕ → Type 0
NoNul [] = Unit {0}
NoNul (x ∷ xs) = (x ≢ 0) × NoNul xs

NoNul-append : (xs ys : List ℕ) → NoNul (xs ++ ys) → NoNul xs × NoNul ys
NoNul-append [] ys h = (tt, h)
NoNul-append (x ∷ xs) ys h = let (a, b) = NoNul-append xs ys h.1 in ((h.0, a), b)

sent_all-append : (xs ys : List ℕ) → sent_all (xs ++ ys) ≡ sent_all xs ++ sent_all ys
sent_all-append [] ys = refl
sent_all-append (x ∷ xs) ys = ground (arith, sent_all-append xs ys)

tv_puts-span :
    (n i left : ℕ) (area : ℕ → ℕ)
    → n < left
    → NoNul (span area i n)
    → area (i + n) ≡ 0
    → tv_puts left i area ≡ some (sent_all (span area i n))
unfolding tv_puts
tv_puts-span n i zero area b h z = absurd (omega arith)
tv_puts-span zero i (suc left) area b h z = ground arith
tv_puts-span (suc n) i (suc left) area b h z =
    let ih = tv_puts-span n (suc i) left area (omega arith) h.1 (ground arith) in
    rw (==_of_ne (area i) 0 h.0, ih) refl

put_rest-span : (n i : ℕ) (area : ℕ → ℕ) → put_rest n i area ≡ sent_all (span area i n)
unfolding put_rest
put_rest-span zero i area = refl
put_rest-span (suc n) i area = ground (arith, put_rest-span n (suc i) area)

module _ (s : Logger) (v : Valid s) where
  -- On a valid ring whose characters are not NUL, logger_output sends exactly what the logger holds,
  -- the oldest character first and each line feed with a carriage return before it, or its message
  -- if it holds nothing, and empties it.
  pub logger_output-contents :
      NoNul (contents s)
      → logger_output s
        ≡ some (
          if s.start == s.fin then no_log else sent_all (contents s),
          record s { start = 0; fin = 0 },
        )
  unfolding logger_output
  logger_output-contents h = elim (Bool-cases (s.start == s.fin)) [
    | inl none_there ↦ rw none_there refl
    | inr some_there ↦ elim (Bool-cases (leb s.start s.fin)) [
      | inl flat ↦
          let z : s.start ≡ 0 = ground (arith, v.shape) in
          let is : span s.log_area s.start (s.fin - s.start) ≡ span s.log_area 0 s.fin =
            rw z (ap (span s.log_area 0) (omega arith)) in
          let shown =
            tv_puts-span s.fin 0 s.max_len s.log_area v.inside (rw (flat, is) at h)
              (ground (arith, v.closed)) in
          rw (some_there, flat, is, shown) refl
      | inr wrapped ↦
          let upper = span s.log_area s.start (s.max_len - s.start) in
          let parts = NoNul-append upper (span s.log_area 0 s.fin) (rw wrapped at h) in
          let shown =
            tv_puts-span s.fin 0 s.max_len s.log_area v.inside parts.1 (ground (arith, v.closed)) in
          rw
            (
              some_there,
              wrapped,
              shown,
              put_rest-span (s.max_len - s.start) s.start s.log_area,
              sent_all-append upper (span s.log_area 0 s.fin),
            )
            refl
    ]
  ]
