-- ===== src/Logger/Tests.antt =====
-- A log of four bytes, which holds three characters.
use t_visor.Prelude.{ℕ, ◌≡◌, refl, some, [], ◌∷◌, zero, suc, arith, inr}
use t_visor.Logger.{Logger, logger_putc, logger_output}
use t_visor.Logger.Ring.{Valid, contents, contents-logger_putc}
use t_visor.Logger.Output.{logger_output-contents}

-- It holds "b\nd": the end is at 0, behind the last byte.
abbrev full : Logger
full = record { start = 1; fin = 0; max_len = 4; log_area = chars }
  where
    chars : ℕ → ℕ
    chars zero = 0
    chars (suc zero) = 98
    chars (suc (suc zero)) = 10
    chars (suc (suc (suc i))) = 100

full-Valid : Valid full
full-Valid = record {
  room = omega arith;
  inside = omega arith;
  shape = inr (refl, omega arith);
  closed = refl;
}

contents-logger_putc_example : contents (logger_putc 101 full) ≡ 10 ∷ 100 ∷ 101 ∷ []
contents-logger_putc_example = contents-logger_putc full 101 full-Valid

logger_output-contents_example :
    logger_output full ≡ some (98 ∷ 13 ∷ 10 ∷ 100 ∷ [], record full { start = 0; fin = 0 })
logger_output-contents_example =
    logger_output-contents full full-Valid (omega arith, (omega arith, (omega arith, tt)))
