-- ===== src/FlowWatch/Examples.antt =====
-- flow_watch.h: a discharge that the meter missed.
use Prim.Native.String.{String}
use opta_gateway_mt.Base.{arith, ◌≡◌, refl, false, true, ℕ}
use opta_gateway_mt.Base.Thousandths.{thousandths}
use opta_gateway_mt.Shared.{PlcSnapshot}
use opta_gateway_mt.Shared.Samples.{blank}
use opta_gateway_mt.FlowWatch.{Watch, fw_settling, advance, judge, lay_over, flow_watch_tick}
use opta_gateway_mt.FlowWatch.Verdicts.{IsWatched, flow_watch_tick-IsWatched}

abbrev print : ℕ → ℕ → ℕ → String
print = λ drop litres n. "flow mismatch"

-- The pump ran for 20 s and has been off for 50 s; the level fell from 30 to 10 cm.
abbrev settling : Watch ℕ
settling = record {
  state = fw_settling;
  enabled = true;
  prev_pump = false;
  prev_valid = true;
  start_ms = 100000;
  pump_off_ms = 120000;
  level_start = 30000;
  pulses_start = 500;
  count = 0;
  latched = false;
  latch_until = 0;
  text = "";
}

abbrev fallen : PlcSnapshot ℕ
fallen = record blank { valve_ok = λ k. true; ok = λ k. true; sensor = λ k. 10000 }

missed : (flow_watch_tick thousandths print 170000 500 fallen "ok" settling).1 ≡ "flow mismatch"
unfolding flow_watch_tick advance judge lay_over
missed = refl

flow_watch_tick-IsWatched_example :
    let r = flow_watch_tick thousandths print 170000 500 fallen "ok" settling in
    IsWatched thousandths print 170000 500 fallen "ok" settling r.0 r.1
flow_watch_tick-IsWatched_example =
    flow_watch_tick-IsWatched thousandths print 170000 500 fallen "ok" settling (omega arith)
