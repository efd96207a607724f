-- ===== src/Manual/Examples.antt =====
-- plc_thread.h: a drain by hand.
use opta_gateway_mt.Base.{◌++◌, ◌∷◌, ◌==◌, if◌then◌else◌, ◌≡◌, refl, false, true, [], ℕ}
use opta_gateway_mt.Base.Thousandths.{thousandths}
use opta_gateway_mt.Shared.{PlcSnapshot}
use opta_gateway_mt.Shared.Samples.{blank}
use opta_gateway_mt.Manual.{pump, Manual, Takes, manual_tick, man_pump, man_pump_write, man_tell}
use opta_gateway_mt.Manual.Sound.{Writes}
use opta_gateway_mt.Manual.Ticks.{stop_taken, manual_tick-stops}
use opta_gateway_mt.Manual.Events.{Event, switch, step, step-Writes}

abbrev takes_all : Takes
takes_all = λ o on. true

-- Both valves read open, the level at 40.
abbrev open_read : PlcSnapshot ℕ
open_read = record blank {
  valve = λ k. if k == 17 then 100000 else if k == 1 then 1000 else 0;
  valve_ok = λ k. true;
  sensor = λ k. 40000;
  ok = λ k. true;
}

abbrev idle : Manual
idle = record {
  own = λ o. false;
  pump_on_ms = 0;
  check = λ o. record { armed = false; expect = false; due_ms = 0 };
  said = record { last_error = "ok"; text = ""; until = 0; on = false };
  writes = [];
}

abbrev start_pump : Event ℕ
start_pump = record { kind = switch pump true; now = 10000; read = open_read; plc = takes_all }

pump_starts : (man_pump thousandths takes_all 10000 open_read true idle).0.own pump ≡ true
unfolding man_pump man_pump_write man_tell
pump_starts = refl

step-Writes_example : Writes thousandths open_read idle (step thousandths start_pump idle)
step-Writes_example = step-Writes thousandths start_pump idle

-- Three minutes later.
abbrev running : Manual
running = (man_pump thousandths takes_all 10000 open_read true idle).0

manual_tick-stops_example :
    let m1 = manual_tick thousandths takes_all 190000 189000 open_read running in
    (m1.own pump ≡ false) × (m1.writes ≡ running.writes ++ (stop_taken ∷ []))
unfolding man_pump man_pump_write man_tell
manual_tick-stops_example =
    manual_tick-stops thousandths takes_all 190000 189000 open_read running refl refl
