-- ===== src/Base/Floats.antt =====
-- The board's `float`, which the model takes as a parameter: the operations that the source uses,
-- with no law assumed of them. `lit n d` is the literal `n / d`; `of_bits` and `to_bits` are the
-- `memcpy` between a float and its four bytes.
use Prim.Native.Nat.{ℕ}
use mathlib.Core.Bool.{Bool}
use opta_gateway_mt.Base.Ints.{ℤ}

pub record Floats : Type 1 where
  pub F : Type 0
  pub lit : ℕ → ℕ → F
  pub of_ℕ : ℕ → F
  pub of_int : ℤ → F
  pub of_bits : ℕ → F
  pub to_bits : F → ℕ
  pub lt : F → F → Bool
  pub le : F → F → Bool
  pub eq : F → F → Bool
  pub add : F → F → F
  pub sub : F → F → F
  pub mul : F → F → F
  pub div : F → F → F
  pub abs : F → F
  pub neg : F → F
  -- `(long)f` of a value that is not negative
  pub trunc : F → ℕ
  pub is_nan : F → Bool
  pub is_inf : F → Bool
