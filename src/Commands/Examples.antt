-- ===== src/Commands/Examples.antt =====
-- plc_thread.h: commands that arrive with the dashboard's control switched off.
use opta_gateway_mt.Base.{◌∷◌, refl, none, [], false, true, ℕ}
use opta_gateway_mt.Base.Thousandths.{thousandths}
use opta_gateway_mt.Shared.{Cmd, start_button, flow_reset_total}
use opta_gateway_mt.Shared.Samples.{blank}
use opta_gateway_mt.Say.{Said}
use opta_gateway_mt.Manual.{Manual}
use opta_gateway_mt.Laco.{Laco, Job, write_a}
use opta_gateway_mt.Water.FlowMeter.{Meter}
use opta_gateway_mt.Water.{Water, told}
use opta_gateway_mt.Water
use opta_gateway_mt.Commands.{Thread, Answers, drain_commands}
use opta_gateway_mt.Commands.Gate.{IsIdle, drain_commands-IsIdle}

abbrev ok_said : Said
ok_said = record { last_error = "ok"; text = ""; until = 0; on = false }

abbrev still : Manual
still = record {
  own = λ o. false;
  pump_on_ms = 0;
  check = λ o. record { armed = false; expect = false; due_ms = 0 };
  said = ok_said;
  writes = [];
}

abbrev no_job : ℕ → Job
no_job side = record { active = false; opening = false; step = write_a; at_ms = 0; side_a = side }

abbrev doors : Laco ℕ
doors = record {
  top = no_job 0;
  bot = no_job 2;
  val = λ k. 0;
  val_ok = λ k. false;
  seen = false;
  aborted = false;
  said = ok_said;
  writes = [];
}

abbrev meter : Meter ℕ
meter = record {
  last_count = 0;
  last_ms = 0;
  uncommitted = 1500;
  pending_commit = false;
  in_batch = true;
  last_flow_ms = 0;
  flow_rate = 0;
  flow_total = 1500;
  flow_batch = 1500;
  water_owed = 1500;
}

abbrev books : Water ℕ
books = record {
  meter = meter;
  last_good_cum = 0;
  last_good_valid = false;
  last_hour = 0;
  hmi_last_ms = 0;
  ever_run = false;
  last_write = 0;
  ever_ok = false;
  trip_ever_ok = false;
  trip_last_try = 0;
  core_fails = 0;
  live_cum = 0;
  live_trip = 0;
  live_trip_valid = false;
  hmi_write_ok = false;
  hmi_write_count = 0;
  restores = 0;
  flow_write_ok = false;
  last_error = told "ok";
  writes = [];
}

abbrev thread : Thread ℕ
thread = record {
  said = ok_said;
  manual = still;
  laco = doors;
  water = books;
  clear_due = λ f. none;
  done = [];
}

abbrev water_answers : Water.Pass ℕ
water_answers = record {
  now = 1000;
  clock = 0;
  cumul_vol_reset_is = none;
  trip_reset_is = none;
  cum_at_trip = none;
  base = none;
  mark = none;
  hist = λ i. none;
  takes = λ k. true;
}

abbrev answers : Answers ℕ
answers = record {
  now = 1000;
  read = blank;
  manual_takes = λ o on. true;
  water_takes = water_answers;
  takes = λ o. true;
  connected = λ s. true;
}

abbrev press : Cmd ℕ
press = record { tag = start_button; is_bool = true; value = 1000 }

abbrev zero_books : Cmd ℕ
zero_books = record { tag = flow_reset_total; is_bool = true; value = 1000 }

drain_commands-IsIdle_example :
    IsIdle thousandths true thread
      (drain_commands thousandths answers true false (press ∷ zero_books ∷ []) thread)
drain_commands-IsIdle_example =
    drain_commands-IsIdle thousandths answers true false (press ∷ zero_books ∷ []) thread refl
