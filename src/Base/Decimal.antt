-- ===== src/Base/Decimal.antt =====
-- What `snprintf` prints for `%lu`, as bytes.
use Prim.Native.Nat.{ℕ, zero, suc, ◌+◌, ◌/◌, ◌%◌}
use mathlib.Core.List.{List, [], ◌∷◌, ◌++◌}
use opta_gateway_mt.Base.Tests.{ltb, if◌then◌else◌}

-- `%lu`: at most ten digits of a 32-bit number.
unfoldable pub decimal_from : ℕ → ℕ → List ℕ
decimal_from zero n = []
decimal_from (suc f) n = (if ltb n 10 then [] else decimal_from f (n / 10)) ++ ((48 + n % 10) ∷ [])

abbrev pub decimal : ℕ → List ℕ
decimal = decimal_from 10
