-- ===== src/Sweep/Examples.antt =====
-- plc_thread.h: a sweep in which the DINT tags are missing.
use Prim.Native.String.{String}
use opta_gateway_mt.Base.{none, some, false, true, ℕ}
use opta_gateway_mt.Base.Thousandths.{thousandths}
use opta_gateway_mt.Sweep.{Sweep, Reads, poll_sensors}
use opta_gateway_mt.Sweep.Slots.{IsSwept, poll_sensors-IsSwept}

abbrev reals_only : Reads ℕ
reals_only = record { real = λ t. some 23400; dint = λ t. none }

abbrev before : Sweep ℕ
before = record {
  rvals = λ k. 0;
  sensor = λ k. 0;
  ok = λ k. false;
  fails = 0;
  fail_tag = "ok";
  plc_connected = true;
  last_error = "ok";
  ended = false;
}

abbrev print : ℕ → String
print = λ n. "read fail"

poll_sensors-IsSwept_example :
    IsSwept thousandths reals_only before (poll_sensors thousandths reals_only print before)
poll_sensors-IsSwept_example = poll_sensors-IsSwept thousandths reals_only print before
