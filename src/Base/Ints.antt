-- ===== src/Base/Ints.antt =====
-- Signed integers over the native numbers: a 32-bit `int32_t` that the source only compares.
use Prim.Native.Nat.{ℕ, ◌-◌, ◌^◌}
use opta_gateway_mt.Base.Tests.{ltb, if◌then◌else◌}

-- `negsuc n` is -(n + 1).
pub data ℤ : Type 0 where
  pos : ℕ → ℤ
  negsuc : ℕ → ℤ

-- The number that a bit pattern of 16 or 32 bits stands for, and back.
abbrev pub signed16 : ℕ → ℤ
signed16 w = if ltb w (2 ^ 15) then pos w else negsuc (2 ^ 16 - w - 1)

abbrev pub signed32 : ℕ → ℤ
signed32 w = if ltb w (2 ^ 31) then pos w else negsuc (2 ^ 32 - w - 1)

abbrev pub bits16 : ℤ → ℕ
bits16 (pos n) = n
bits16 (negsuc n) = 2 ^ 16 - n - 1

abbrev pub bits32 : ℤ → ℕ
bits32 (pos n) = n
bits32 (negsuc n) = 2 ^ 32 - n - 1
