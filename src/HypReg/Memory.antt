-- ===== src/HypReg/Memory.antt =====
-- `hyp_memory_passthrough` of hyp_call.c: a trapped load or store of a guest is carried out on the
-- device itself.
use t_visor.Prelude.{
  ℕ, ◌+◌, ◌-◌, ◌/◌, ◌%◌, ◌^◌, ◌≤◌, ◌≡◌, Bool, true, false, List, ◌∷◌, arith, ltb, ◌==◌,
  if◌then◌else◌,
}
use t_visor.Prelude.Words.{bit}
use t_visor.HypReg.{GuestRegs, hyp_reg_write, hyp_reg_read}

-- The access sizes of include/port.h.
pub data Size : Type 0 where
  byte half word : Size

-- What the device gives to a load, as a bit pattern, and the stores made to it, the last one first.
pub record Io : Type 0 where
  pub load : Size → ℕ → ℕ
  pub stores : List (Size × ℕ × ℕ)

abbrev pub store : Size → ℕ → ℕ → Io → Io
store z addr v io = record io { stores = (z, addr, v) ∷ io.stores }

-- The fields of the syndrome.
abbrev pub reg_id_of : ℕ → ℕ
reg_id_of iss = iss / 2 ^ 16 % 16

abbrev pub len_of : ℕ → ℕ
len_of iss = iss / 2 ^ 22 % 4

-- `n` bits, as a signed number, widened to 32 bits.
abbrev pub sign_extend : ℕ → ℕ → ℕ
sign_extend n v = if ltb v (2 ^ (n - 1)) then v else v + (2 ^ 32 - 2 ^ n)

-- The value that a load puts into the register.
unfoldable pub loaded : Bool → ℕ → ℕ → Io → ℕ
loaded sse len addr io =
    if len == 0
    then (if sse then sign_extend 8 (io.load Size.byte addr) else io.load Size.byte addr)
    else if len == 1
    then (if sse then sign_extend 16 (io.load Size.half addr) else io.load Size.half addr)
    else if len == 2
    then io.load Size.word addr
    else 0

pub stored : ℕ → ℕ → ℕ → Io → Io
stored len addr value io =
    if len == 0
    then store Size.byte addr (value % 2 ^ 8) io
    else if len == 1
    then store Size.half addr (value % 2 ^ 16) io
    else if len == 2
    then store Size.word addr value io
    else io

pub hyp_memory_passthrough : (leftover : ℕ) → ℕ → ℕ → GuestRegs × Io → GuestRegs × Io
hyp_memory_passthrough leftover iss addr (g, io) =
    if bit 6 iss
    then (g, stored (len_of iss) addr (hyp_reg_read (reg_id_of iss) g) io)
    else (hyp_reg_write leftover (reg_id_of iss) (loaded (bit 21 iss) (len_of iss) addr io) g, io)

-- What a load of a byte or a half gives is a word, and its low bits are what the device gave.
pub loaded_low :
    (sse : Bool) (addr : ℕ) (io : Io)
    → io.load Size.byte addr ≤ 255
    → io.load Size.half addr ≤ 65535
    → (loaded sse 0 addr io % 2 ^ 8 ≡ io.load Size.byte addr)
      × (loaded sse 1 addr io % 2 ^ 16 ≡ io.load Size.half addr)
unfolding loaded
loaded_low true addr io a b = (ground arith, ground arith)
loaded_low false addr io a b = (ground arith, ground arith)
