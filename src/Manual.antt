-- ===== src/Manual.antt =====
-- plc_thread.h: the outputs that the dashboard may switch by hand, the vent S4, the condensate pump
-- and the suction valve S5. `Said.last_error` is the snapshot's `lastError`, and the one clock
-- reading of a call stands for its reads of `millis()`.
pub mod Sound
pub mod Ticks
pub mod Events
mod Examples
use Prim.Native.String.{[], String, ◌++◌ as ◌<>◌}
use opta_gateway_mt.Base.{
  [], List, ◌==◌, ◌∷◌, add32, sub32, List, ◌++◌, leb, not, ltb, true, ◌||◌, ◌&&◌, is_past, Bool,
  if◌then◌else◌, ℕ, false,
}
use opta_gateway_mt.Base.Floats.{Floats}
use opta_gateway_mt.Shared.{PlcSnapshot}
use opta_gateway_mt.Say.{Said, say}

abbrev pub pump_stop_level : ℕ
pump_stop_level = 18

abbrev pub pump_max_ms : ℕ
pump_max_ms = 180000

abbrev pub man_verify_ms : ℕ
man_verify_ms = 4000

abbrev pub verify_stale_ms : ℕ
verify_stale_ms = 15000

abbrev pub level_slot : ℕ
level_slot = 27

-- The three outputs, in the order of the source's indexes.
pub data Out : Type 0 where
  s4 pump s5 : Out

abbrev pub man_slot : Out → ℕ
man_slot s4 = 17
man_slot pump = 11
man_slot s5 = 1

abbrev pub man_who : Out → String
man_who s4 = "S4"
man_who pump = "Cond_Pump"
man_who s5 = "S5"

abbrev pub out_tag : Out → String
out_tag s4 = "Air_S4_Output"
out_tag pump = "Cond_Pump"
out_tag s5 = "Air_S5"

-- `s_manChk`, `s_manExpect` and `s_manDueMs` of one output.
pub record Check : Type 0 where
  pub armed : Bool
  pub expect : Bool
  pub due_ms : ℕ

-- One write to the PLC and whether it was taken.
pub record OutWrite : Type 0 where
  pub out : Out
  pub on : Bool
  pub taken : Bool

-- The statics, the text latch, and the log of writes. Owning the pump is `s_manPumpActive`.
pub record Manual : Type 0 where
  pub own : Out → Bool
  pub pump_on_ms : ℕ
  pub check : Out → Check
  pub said : Said
  pub writes : List OutWrite

-- Which writes the PLC takes in a tick.
abbrev pub Takes : Type 0
Takes = Out → Bool → Bool

abbrev pub put : {A : Type 0} → Out → A → (Out → A) → Out → A
put s4 x f s4 = x
put s4 x f pump = f pump
put s4 x f s5 = f s5
put pump x f s4 = f s4
put pump x f pump = x
put pump x f s5 = f s5
put s5 x f s4 = f s4
put s5 x f pump = f pump
put s5 x f s5 = x

unfoldable pub man_tell : ℕ → String → Manual → Manual
man_tell now t m = record m { said = say now t m.said }

abbrev pub man_log : Out → Bool → Bool → Manual → Manual
man_log o on taken m = record m {
  writes = m.writes ++ (record { out = o; on = on; taken = taken } ∷ []);
}

-- `manArm`.
abbrev pub man_arm : ℕ → Out → Bool → Manual → Manual
man_arm now o on m = record m {
  check = put o (record { armed = true; expect = on; due_ms = add32 now man_verify_ms }) m.check;
}

abbrev pub set_own : Out → Bool → Manual → Manual
set_own o on m = record m { own = put o on m.own }

abbrev pub disarm_one : Out → Manual → Manual
disarm_one o m = record m { check = put o (record (m.check o) { armed = false }) m.check }

-- `manPumpWrite`.
unfoldable pub man_pump_write : Takes → ℕ → Bool → String → Bool → Manual → Manual × Bool
man_pump_write plc now on text arm m =
    let ok = plc pump on in
    let m1 = man_tell now (if ok then text else "write Cond_Pump failed") (man_log pump on ok m) in
    let m2 = if arm then man_arm now pump on m1 else m1 in
    let m3 = set_own pump on m2 in
    if not ok then (m1, false) else (if on then record m3 { pump_on_ms = now } else m3, true)

module _ (fl : Floats) where
  -- `manReadOn`.
  abbrev pub man_read_on : PlcSnapshot fl.F → Out → Bool
  man_read_on w s4 = fl.le (fl.lit 50 1) (w.valve 17)
  man_read_on w pump = fl.lt (fl.lit 1 2) (w.valve 11)
  man_read_on w s5 = fl.lt (fl.lit 1 2) (w.valve 1)

  -- It was read, and reads on.
  abbrev pub reads_open : PlcSnapshot fl.F → Out → Bool
  reads_open w o = w.valve_ok (man_slot o) && man_read_on w o

  abbrev pub pump_is_on : PlcSnapshot fl.F → Manual → Bool
  pump_is_on w m = m.own pump || reads_open w pump

  -- `manS4` and `manS5`, which differ in the output: `o` is one of these two.
  unfoldable pub man_valve : Takes → ℕ → PlcSnapshot fl.F → Out → Bool → Manual → Manual × Bool
  man_valve plc now w o on m =
      let stops = not on && pump_is_on w m in
      let s = if stops then man_pump_write plc now false "pump stopped" true m else (m, true) in
      let ok = plc o on in
      let m1 = man_log o on ok s.0 in
      let text =
        if not ok
        then ("write " <> out_tag o) <> " failed"
        else if stops
        then man_who o <> " closed, pump stopped"
        else if on
        then man_who o <> " opened"
        else man_who o <> " closed" in
      let m2 = man_tell now text m1 in
      if on && not (w.action_word == 0)
      then (man_tell now "manual: cycle running" m, false)
      else if not on && not (m.own o)
      then (man_tell now (man_who o <> ": not a manual output") m, false)
      else if stops && not s.1
      then (s.0, false)
      else (if ok then set_own o on (man_arm now o on m2) else m2, ok)

  -- `manPump`.
  unfoldable pub man_pump : Takes → ℕ → PlcSnapshot fl.F → Bool → Manual → Manual × Bool
  man_pump plc now w on m =
      let open4 = reads_open w s4 in
      let open5 = reads_open w s5 in
      let text =
        if not open4 && not open5
        then "pump: S4/S5 not open"
        else if not open4
        then "pump: S4 not open"
        else "pump: S5 not open" in
      if on && not (w.action_word == 0)
      then (man_tell now "manual: cycle running" m, false)
      else if not on && not (m.own pump)
      then (man_tell now "pump: not a manual output" m, false)
      else if on && (not open4 || not open5)
      then (man_tell now text m, false)
      else man_pump_write plc now on (if on then "pump started" else "pump stopped") true m

  -- The auto-stop at the head of `manualTick`.
  unfoldable pub auto_stop : Takes → ℕ → PlcSnapshot fl.F → Manual → Manual
  auto_stop plc now w m =
      let low = w.ok level_slot && fl.lt (w.sensor level_slot) (fl.lit pump_stop_level 1) in
      let late = leb pump_max_ms (sub32 now m.pump_on_ms) in
      if m.own pump && (low || late)
      then (man_pump_write plc now false
          (if low then "pump stopped: level 18" else "pump stopped: 180 s") false m).0
      else m

  -- The verdict on one output; `sweep` is `s_valveSweepStartMs`.
  unfoldable pub man_verdict : ℕ → ℕ → PlcSnapshot fl.F → Out → Manual → Manual
  man_verdict now sweep w o m =
      let c = m.check o in
      let d = disarm_one o m in
      let stale = is_past now c.due_ms && ltb verify_stale_ms (sub32 now c.due_ms) in
      if not c.armed || not (is_past sweep c.due_ms)
      then m
      else if stale || not (w.valve_ok (man_slot o))
      then man_tell now (man_who o <> " unverified") d
      else if (if c.expect then man_read_on w o else not (man_read_on w o))
      then d
      else set_own o false (man_tell now (man_who o <> " re-asserted by PLC") d)

  -- An output that reads off was taken back by the PLC.
  unfoldable pub catch_up : PlcSnapshot fl.F → Out → Manual → Manual
  catch_up w o m =
      if m.own o && not (m.check o).armed && w.valve_ok (man_slot o) && not (man_read_on w o)
      then set_own o false m
      else m

  -- The pump stops when a valve that it depends on reads closed.
  unfoldable pub stop_if_shut : Takes → ℕ → PlcSnapshot fl.F → Out → Manual → Manual
  stop_if_shut plc now w o m =
      if m.own pump && not (m.check o).armed && w.valve_ok (man_slot o) && not (man_read_on w o)
      then (man_pump_write plc now false (("pump stopped: " <> man_who o) <> " closed") false m).0
      else m

  abbrev pub verdicts : ℕ → ℕ → PlcSnapshot fl.F → Manual → Manual
  verdicts now sweep w m =
      man_verdict now sweep w s5 (man_verdict now sweep w pump (man_verdict now sweep w s4 m))

  abbrev pub catch_ups : PlcSnapshot fl.F → Manual → Manual
  catch_ups w m = catch_up w s5 (catch_up w pump (catch_up w s4 m))

  -- `manualTick`.
  unfoldable pub manual_tick : Takes → ℕ → ℕ → PlcSnapshot fl.F → Manual → Manual
  manual_tick plc now sweep w m =
      stop_if_shut plc now w s5
        (stop_if_shut plc now w s4 (catch_ups w (verdicts now sweep w (auto_stop plc now w m))))

-- `manDisarm`, when the PLC is gone: the checks go, and who owns what stays.
unfoldable pub man_disarm : Manual → Manual
man_disarm m = disarm_one s5 (disarm_one pump (disarm_one s4 m))
