-- ===== src/Base/Words.antt =====
-- The board's unsigned 32-bit arithmetic: `uint32_t`, `unsigned long` and what `millis()` returns.
use Prim.Native.Nat.{ℕ, ◌+◌, ◌-◌, ◌%◌, ◌^◌, ◌≤◌, ◌<◌}
use mathlib.Core.Path.{◌≡◌}
use mathlib.Core.Bool.{Bool}
use native.Mathlib.Omega.{arith}
use opta_gateway_mt.Base.Tests.{ltb}

abbrev pub word : ℕ
word = 2 ^ 32

-- `a + b`, `a - b` and `a++` on 32 bits.
abbrev pub add32 : ℕ → ℕ → ℕ
add32 a b = (a + b) % 2 ^ 32

abbrev pub sub32 : ℕ → ℕ → ℕ
sub32 a b = (a + 2 ^ 32 - b) % 2 ^ 32

abbrev pub inc32 : ℕ → ℕ
inc32 a = (a + 1) % 2 ^ 32

-- `(long)(now - due) >= 0`: the signed view of the wrapped difference.
abbrev pub is_past : ℕ → ℕ → Bool
is_past now due = ltb (sub32 now due) (2 ^ 31)

-- Time between two instants seen from an earlier one: the wrapped clock subtracts exactly.
pub sub32_split :
    (origin start now : ℕ)
    → origin < word
    → start < word
    → now < word
    → sub32 start origin ≤ sub32 now origin
    → sub32 now start + sub32 start origin ≡ sub32 now origin
sub32_split origin start now ho hs hn h = omega arith
