-- ===== src/Prelude/Words.antt =====
-- Bits of machine words.
use Prim.Native.Nat.{ℕ, zero, suc, ◌+◌, ◌*◌, ◌/◌, ◌%◌}
use mathlib.Core.Path.{◌≡◌, refl}
use mathlib.Core.Logic.{◌≢◌}
use mathlib.Core.Bool.{Bool, true, false}
use native.Mathlib.Omega.{arith}
use t_visor.Prelude.Tests.{◌==◌}

-- `w & (1 << i)` is not zero.
unfoldable pub bit : ℕ → ℕ → Bool
bit zero w = w % 2 == 1
bit (suc i) w = bit i (w / 2)

-- `w | (1 << i)`.
unfoldable pub set_bit : ℕ → ℕ → ℕ
set_bit zero w = w / 2 * 2 + 1
set_bit (suc i) w = w % 2 + 2 * set_bit i (w / 2)

-- `w & ~(1 << i)`.
unfoldable pub clear_bit : ℕ → ℕ → ℕ
clear_bit zero w = w / 2 * 2
clear_bit (suc i) w = w % 2 + 2 * clear_bit i (w / 2)

pub bit-set_bit_self : (i w : ℕ) → bit i (set_bit i w) ≡ true
unfolding bit set_bit
bit-set_bit_self zero w = ground arith
bit-set_bit_self (suc i) w =
    let e : (w % 2 + 2 * set_bit i (w / 2)) / 2 ≡ set_bit i (w / 2) = omega arith in
    rw e (bit-set_bit_self i (w / 2))

pub bit-clear_bit_self : (i w : ℕ) → bit i (clear_bit i w) ≡ false
unfolding bit clear_bit
bit-clear_bit_self zero w = ground arith
bit-clear_bit_self (suc i) w =
    let e : (w % 2 + 2 * clear_bit i (w / 2)) / 2 ≡ clear_bit i (w / 2) = omega arith in
    rw e (bit-clear_bit_self i (w / 2))

pub bit-set_bit_ne : (i j w : ℕ) → i ≢ j → bit j (set_bit i w) ≡ bit j w
unfolding bit set_bit
bit-set_bit_ne zero zero w h = absurd (h refl)
bit-set_bit_ne zero (suc j) w h = let e : (w / 2 * 2 + 1) / 2 ≡ w / 2 = omega arith in rw e
bit-set_bit_ne (suc i) zero w h =
    let e : (w % 2 + 2 * set_bit i (w / 2)) % 2 ≡ w % 2 = omega arith in rw e
bit-set_bit_ne (suc i) (suc j) w h =
    let e : (w % 2 + 2 * set_bit i (w / 2)) / 2 ≡ set_bit i (w / 2) = omega arith in
    rw e (bit-set_bit_ne i j (w / 2) (omega arith))

pub bit-clear_bit_ne : (i j w : ℕ) → i ≢ j → bit j (clear_bit i w) ≡ bit j w
unfolding bit clear_bit
bit-clear_bit_ne zero zero w h = absurd (h refl)
bit-clear_bit_ne zero (suc j) w h = let e : (w / 2 * 2) / 2 ≡ w / 2 = omega arith in rw e
bit-clear_bit_ne (suc i) zero w h =
    let e : (w % 2 + 2 * clear_bit i (w / 2)) % 2 ≡ w % 2 = omega arith in rw e
bit-clear_bit_ne (suc i) (suc j) w h =
    let e : (w % 2 + 2 * clear_bit i (w / 2)) / 2 ≡ clear_bit i (w / 2) = omega arith in
    rw e (bit-clear_bit_ne i j (w / 2) (omega arith))
