-- ===== src/FlowWatch.antt =====
-- flow_watch.h: what the tank level says was discharged, against what the pulse meter says. The text
-- of a verdict is a parameter: `print` is the `snprintf` of the drop, the litres and the count.
pub mod Verdicts
mod Examples
use Prim.Native.String.{String}
use opta_gateway_mt.Base.{
  leb, is_past, ltb, add32, ◌&&◌, not, Bool, if◌then◌else◌, sub32, inc32, none, some, [], false,
  true, ℕ, zero, suc,
}
use opta_gateway_mt.Base.Floats.{Floats}
use opta_gateway_mt.Shared.{PlcSnapshot}
use text.Mathlib.Text.{◌==◌ as str_eq}

abbrev pub watch_settle_ms : ℕ
watch_settle_ms = 45000

abbrev pub pump_min_ms : ℕ
pump_min_ms = 10000

abbrev pub watch_pump_max_ms : ℕ
watch_pump_max_ms = 180000

abbrev pub latch_ms : ℕ
latch_ms = 3600000

-- `FlowWatchState`.
pub data WatchState : Type 0 where
  fw_idle fw_pumping fw_settling : WatchState

-- The file's statics.
pub record Watch (F : Type 0) : Type 0 where
  pub state : WatchState
  pub enabled : Bool
  pub prev_pump : Bool
  pub prev_valid : Bool
  pub start_ms : ℕ
  pub pump_off_ms : ℕ
  pub level_start : F
  pub pulses_start : ℕ
  pub count : ℕ
  pub latched : Bool
  pub latch_until : ℕ
  pub text : String

module _ {F : Type 0} where
  -- `flowWatchInit`, on the tags that the tables have in the two slots.
  unfoldable pub flow_watch_init : String → String → Watch F → Watch F
  flow_watch_init valve_tag sensor_tag s = record s {
    enabled = str_eq valve_tag "Cond_Pump" && str_eq sensor_tag "Collection_Tank_Level";
  }

  -- `flowWatchRelease`, on `lastError`.
  abbrev pub release : Watch F → String → Watch F × String
  release s err = (record s { latched = false }, if str_eq err s.text then "ok" else err)

  -- The overlay: the latch runs out, or shows its text where there is no error.
  unfoldable pub lay_over : ℕ → Watch F → String → Watch F × String
  lay_over now s err =
      if not s.latched
      then (s, err)
      else if is_past now s.latch_until
      then release s err
      else (s, if str_eq err "ok" then s.text else err)

  abbrev pub to_state : WatchState → Watch F → Watch F
  to_state st s = record s { state = st }

module _ (fl : Floats) (print : fl.F → fl.F → ℕ → String) where
  abbrev pub drop_cm : PlcSnapshot fl.F → Watch fl.F → fl.F
  drop_cm w s = fl.sub s.level_start (w.sensor 27)

  abbrev pub litres : ℕ → Watch fl.F → fl.F
  litres pulses s =
      fl.div (fl.of_ℕ (sub32 pulses s.pulses_start)) (fl.mul (fl.lit 38 1) (fl.lit 60 1))

  -- Pumped long enough for a discharge, and the level fell by one.
  abbrev pub is_discharge : PlcSnapshot fl.F → Watch fl.F → Bool
  is_discharge w s =
      fl.eq (drop_cm w s) (drop_cm w s)
      && not (ltb (sub32 s.pump_off_ms s.start_ms) pump_min_ms)
      && fl.le (fl.lit 8 1) (drop_cm w s)

  abbrev pub is_unmetered : ℕ → Watch fl.F → Bool
  is_unmetered pulses s = fl.lt (litres pulses s) (fl.lit 1 4)

  -- `flowWatchJudge`.
  unfoldable pub judge : ℕ → ℕ → PlcSnapshot fl.F → String → Watch fl.F → Watch fl.F × String
  judge now pulses w err s =
      let n = inc32 s.count in
      if not (is_discharge w s)
      then (s, err)
      else if is_unmetered pulses s
      then (
        record s {
          count = n;
          latched = true;
          latch_until = add32 now latch_ms;
          text = print (drop_cm w s) (litres pulses s) n;
        },
        err,
      )
      else if s.latched
      then release s err
      else (s, err)

  abbrev pub pump_ok : PlcSnapshot fl.F → Bool
  pump_ok w = w.plc_connected && w.valve_ok 11

  abbrev pub pump_on : PlcSnapshot fl.F → Bool
  pump_on w = pump_ok w && fl.lt (fl.lit 1 2) (w.valve 11)

  -- The switch of `flowWatchTick`, by the state.
  unfoldable pub advance :
      WatchState → ℕ → ℕ → PlcSnapshot fl.F → String → Watch fl.F → Watch fl.F × String
  advance fw_idle now pulses w err s =
      let begun : Watch fl.F = record s {
        state = fw_pumping;
        start_ms = now;
        level_start = w.sensor 27;
        pulses_start = pulses;
      } in
      (if s.prev_valid && not s.prev_pump && pump_on w && w.ok 27 then begun else s, err)
  advance fw_pumping now pulses w err s =
      if not (pump_ok w)
      then (to_state fw_idle s, err)
      else if not (pump_on w)
      then (record s { state = fw_settling; pump_off_ms = now }, err)
      else if ltb watch_pump_max_ms (sub32 now s.start_ms)
      then (to_state fw_idle s, err)
      else (s, err)
  advance fw_settling now pulses w err s =
      if not (pump_ok w)
      then (to_state fw_idle s, err)
      else if not (leb watch_settle_ms (sub32 now s.pump_off_ms))
      then (s, err)
      else if not (w.ok 27)
      then (to_state fw_idle s, err)
      else judge now pulses w err (to_state fw_idle s)

  -- The edge memory.
  abbrev pub remember : PlcSnapshot fl.F → Watch fl.F → Watch fl.F
  remember w s = record s {
    prev_pump = if pump_ok w then pump_on w else s.prev_pump;
    prev_valid = pump_ok w;
  }

  -- `flowWatchTick`: the statics, whose count is published, and `lastError`.
  unfoldable pub flow_watch_tick :
      ℕ → ℕ → PlcSnapshot fl.F → String → Watch fl.F → Watch fl.F × String
  flow_watch_tick now pulses w err s =
      let a = advance s.state now pulses w err s in
      if not s.enabled then (s, err) else lay_over now (remember w a.0) a.1
