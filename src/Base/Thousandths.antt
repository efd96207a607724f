-- ===== src/Base/Thousandths.antt =====
-- Whole numbers of thousandths for `float`, to run the model on.
use Prim.Native.Nat.{ℕ, ◌+◌, ◌-◌, ◌*◌, ◌/◌}
use mathlib.Core.Bool.{false}
use opta_gateway_mt.Base.Tests.{ltb, leb, ◌==◌}
use opta_gateway_mt.Base.Ints.{ℤ, pos, negsuc}
use opta_gateway_mt.Base.Floats.{Floats}

abbrev in_thousandths : ℤ → ℕ
in_thousandths (pos n) = n * 1000
in_thousandths (negsuc n) = 0

abbrev pub thousandths : Floats
thousandths = record {
  F = ℕ;
  lit = λ n d. n * 1000 / d;
  of_ℕ = λ n. n * 1000;
  of_int = in_thousandths;
  of_bits = λ n. n;
  to_bits = λ n. n;
  lt = ltb;
  le = leb;
  eq = λ a b. a == b;
  add = λ a b. a + b;
  sub = λ a b. a - b;
  mul = λ a b. a * b / 1000;
  div = λ a b. a * 1000 / b;
  abs = λ a. a;
  neg = λ a. a;
  trunc = λ a. a / 1000;
  is_nan = λ _. false;
  is_inf = λ _. false;
}
