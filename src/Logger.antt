-- ===== src/Logger.antt =====
-- logger.c: a ring of characters that ends with a NUL, and `tv_puts` of debug.c, which prints it.
-- The area has `max_len` bytes. What goes to the serial line is a list of bytes; `none` is a read
-- beyond the area.
pub mod Ring
pub mod Output
mod Tests
use mathlib.Core.Option
use t_visor.Prelude.{
  ℕ, zero, suc, ◌+◌, ◌-◌, ◌%◌, Option, none, some, List, [], ◌∷◌, ◌++◌, ltb, leb, ◌==◌,
  if◌then◌else◌,
}
use t_visor.TimerEvent.{put}

pub record Logger : Type 0 where
  pub start : ℕ
  -- `end`.
  pub fin : ℕ
  pub max_len : ℕ
  pub log_area : ℕ → ℕ

-- `start` and `end` are 0, and the first character is NUL.
unfoldable pub logger_init : ℕ → (ℕ → ℕ) → Logger
logger_init len area = record { start = 0; fin = 0; max_len = len; log_area = put area 0 0 }

unfoldable pub logger_putc : ℕ → Logger → Logger
logger_putc c s =
    let area = put s.log_area s.fin c in
    let fin = (s.fin + 1) % s.max_len in
    let start = if s.start == fin then (s.start + 1) % s.max_len else s.start in
    record s { start = start; fin = fin; log_area = put area fin 0 }

-- A character on the serial line, with a carriage return before a line feed.
abbrev pub sent : ℕ → List ℕ → List ℕ
sent c rest = if c == 10 then 13 ∷ 10 ∷ rest else c ∷ rest

-- `tv_puts` from the address `i`, with the bytes left in the area.
unfoldable pub tv_puts : ℕ → ℕ → (ℕ → ℕ) → Option (List ℕ)
tv_puts zero i area = none
tv_puts (suc n) i area =
    let rest = Option.map (sent (area i)) (tv_puts n (suc i) area) in
    if area i == 0 then some [] else rest

-- `while(start<max_len)` of `logger_output`, from `i` with `n` rounds left.
unfoldable pub put_rest : ℕ → ℕ → (ℕ → ℕ) → List ℕ
put_rest zero i area = []
put_rest (suc n) i area = sent (area i) (put_rest n (suc i) area)

-- "no log\n", as it is sent.
abbrev pub no_log : List ℕ
no_log = b'n' ∷ b'o' ∷ 32 ∷ b'l' ∷ b'o' ∷ b'g' ∷ 13 ∷ 10 ∷ []

unfoldable pub logger_output : Logger → Option (List ℕ × Logger)
logger_output s =
    let out : Option (List ℕ) =
      if s.start == s.fin
      then some no_log
      else if leb s.start s.fin
      then tv_puts s.max_len 0 s.log_area
      else Option.map (λ xs. put_rest (s.max_len - s.start) s.start s.log_area ++ xs)
          (tv_puts s.max_len 0 s.log_area) in
    Option.map (λ xs. (xs, record s { start = 0; fin = 0 })) out
