-- ===== src/Water/Examples.antt =====
-- water_plc.h: a discharge goes into the PLC's total.
use opta_gateway_mt.Base.{arith, ◌≡◌, refl, none, some, [], false, true, ℕ}
use opta_gateway_mt.Base.Thousandths.{thousandths}
use opta_gateway_mt.Water.FlowMeter.{Meter, commit_done}
use opta_gateway_mt.Water.{
  told, Water, Pass, water_vol_wrap, wrap_loop, hmi_update_due, push_hist, beat_write, write_zeros,
}
use opta_gateway_mt.Water.Books.{
  water_to_plc, pass_now, after_reset, hmi_reset, reset_trip, core_writes, restore, totals, commit,
  show, live_figures, hmi_figures, write_hmi, write_trip, settle_core,
}
use opta_gateway_mt.Water.Kept.{IsKept, water_to_plc-IsKept}
use opta_gateway_mt.Water.Wrap.{ExactTurns, IsWrapped, water_vol_wrap-IsWrapped}

-- 1.5 litres are owed after a discharge.
abbrev discharged : Meter ℕ
discharged = record {
  last_count = 0;
  last_ms = 0;
  uncommitted = 1500;
  pending_commit = true;
  in_batch = false;
  last_flow_ms = 0;
  flow_rate = 0;
  flow_total = 1500;
  flow_batch = 1500;
  water_owed = 1500;
}

abbrev books : Water ℕ
books = record {
  meter = discharged;
  last_good_cum = 100000;
  last_good_valid = true;
  last_hour = 0;
  hmi_last_ms = 0;
  ever_run = false;
  last_write = 0;
  ever_ok = true;
  trip_ever_ok = true;
  trip_last_try = 0;
  core_fails = 0;
  live_cum = 0;
  live_trip = 0;
  live_trip_valid = false;
  hmi_write_ok = false;
  hmi_write_count = 0;
  restores = 0;
  flow_write_ok = false;
  last_error = told "ok";
  writes = [];
}

abbrev takes_all : Pass ℕ
takes_all = record {
  now = 10000;
  clock = 1757500000;
  cumul_vol_reset_is = some false;
  trip_reset_is = some false;
  cum_at_trip = none;
  base = some 100000;
  mark = some 50000;
  hist = λ i. none;
  takes = λ k. true;
}

paid : (water_to_plc thousandths takes_all books).meter.uncommitted ≡ 0
unfolding water_to_plc pass_now after_reset hmi_reset reset_trip core_writes restore totals commit
    show live_figures hmi_figures hmi_update_due write_hmi write_trip push_hist settle_core
    beat_write water_vol_wrap wrap_loop commit_done write_zeros
paid = refl

water_to_plc-IsKept_example :
    IsKept thousandths takes_all books (water_to_plc thousandths takes_all books)
water_to_plc-IsKept_example = water_to_plc-IsKept thousandths takes_all books

thousandths-ExactTurns : ExactTurns thousandths 536870912
thousandths-ExactTurns = record { full = λ v h. ground arith; turn = λ v h k. omega arith }

water_vol_wrap-IsWrapped_example :
    IsWrapped thousandths 1200000500 (water_vol_wrap thousandths 1200000500)
water_vol_wrap-IsWrapped_example =
    water_vol_wrap-IsWrapped thousandths 536870912 1200000500 thousandths-ExactTurns (omega arith)
