-- ===== src/Shared/Samples.antt =====
-- shared.h: a snapshot and a surface on concrete values.
use opta_gateway_mt.Base.{ℕ, true, false, []}
use opta_gateway_mt.Shared.{DoorState, PlcSnapshot, Board}

abbrev pub blank : PlcSnapshot ℕ
blank = record {
  seq = 0;
  stamp_ms = 0;
  sensor = λ _. 0;
  ok = λ _. false;
  fails = 0;
  valve = λ _. 0;
  valve_ok = λ _. false;
  valve_fails = 0;
  fail_tag = "";
  action_word = 0;
  state_word = 0;
  state_text = "---";
  door_stat = "";
  door_state = λ _. DoorState.unknown;
  laco_stat = "";
  laco_jobs = 0;
  state_fails = 0;
  state_seq = 0;
  adsorp_elapsed_s = 0;
  desorp_elapsed_t6_s = 0;
  desorp_elapsed_t11_s = 0;
  adsorp_pre_min = 0;
  desorp_pre_min = 0;
  plc_connected = true;
  eip_ms = 0;
  last_cip_status = 0;
  last_error = "ok";
  plc_stack_free = 0;
  cmd_dropped = 0;
  flow_rate = 0;
  flow_total = 0;
  flow_batch = 0;
  water_owed_l = 0;
  live_cum = 0;
  live_trip = 0;
  live_trip_valid = false;
  plc_flow_write_ok = false;
  hmi_write_ok = false;
  hmi_write_count = 0;
  plc_total_restores = 0;
  desorp_pre_min_t11 = 0;
  flow_mismatch_count = 0;
  hp_real = λ _. 0;
  hp_real_ok = λ _. false;
  hp_bool = λ _. 0;
  hp_bool_ok = λ _. false;
  hp_fails = 0;
  hp_data_age_s = 0;
  hp_data_stale = false;
  hp_seq = 0;
}

abbrev pub board : Board ℕ
board = record {
  published = blank;
  ctrl = record { control_enabled = false; flow_rate = 0; flow_batch = 0 };
  queue = [];
  dropped = 0;
}
