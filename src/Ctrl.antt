-- ===== src/Ctrl.antt =====
-- cloud_ctrl.h: the gate between the dashboard and the command queue. A callback takes the value
-- that its property has been given, and returns the value that it leaves in it. The queue and the
-- control block are those of Shared; `local` is the cloud thread's copy of the snapshot, and
-- `noted` is the text that cloud_side.h takes for shown.
pub mod Quiet
pub mod Posts
mod Examples
use Prim.Native.String.{String}
use opta_gateway_mt.Base.{
  ℕ, ◌+◌, Bool, true, false, not, ◌&&◌, ◌||◌, ltb, leb, ◌==◌, if◌then◌else◌, sub32, add32, is_past,
}
use opta_gateway_mt.Base.Floats.{Floats}
use opta_gateway_mt.Base.Ints.{ℤ, pos, negsuc}
use opta_gateway_mt.Shared.{
  DoorState, PlcSnapshot, CtrlState, CmdTag, Cmd, Board, ctrl_write, cmd_post,
}

abbrev pub sync_quiet_ms : ℕ
sync_quiet_ms = 15000

-- `2 * SAMPLE_INTERVAL_MS`.
abbrev pub hold_ticks_ms : ℕ
hold_ticks_ms = 4000

abbrev pub hold_cap_ms : ℕ
hold_cap_ms = 10000

abbrev pub time_min_min : ℕ
time_min_min = 5

abbrev pub time_max_min : ℕ
time_max_min = 60

-- The file's statics, and what they sit between.
pub record Ctrl (F : Type 0) : Type 0 where
  pub sync_seen : Bool
  pub sync_ms : ℕ
  pub ctrl_local : CtrlState F
  pub hold_set : Bool
  pub post_ms : ℕ
  pub master : Bool
  pub last_error : String
  pub noted : String
  pub local : PlcSnapshot F
  pub board : Board F

module _ {F : Type 0} where
  -- Control is disarmed in the local block, and in the one that the PLC thread reads.
  unfoldable pub disarm : Ctrl F → Ctrl F
  disarm c =
      let k : CtrlState F = record (c.ctrl_local) { control_enabled = false } in
      record c { ctrl_local = k; board = ctrl_write k c.board }

  -- `ctrlOnCloudSync`.
  unfoldable pub on_sync : ℕ → Ctrl F → Ctrl F
  on_sync now c = record (disarm c) { sync_seen = true; sync_ms = now; master = false }

  -- `ctrlOnCloudDisconnect`.
  unfoldable pub on_disconnect : Ctrl F → Ctrl F
  on_disconnect c = record (disarm c) { sync_seen = false }

  -- `ctrlQuiet`.
  unfoldable pub is_quiet : ℕ → Ctrl F → Bool
  is_quiet now c = not c.sync_seen || ltb (sub32 now c.sync_ms) sync_quiet_ms

  abbrev pub refuse : String → Ctrl F → Ctrl F
  refuse why c = record c { last_error = why; noted = why }

  -- `ctrlGate`.
  unfoldable pub ctrl_gate : ℕ → Ctrl F → Ctrl F × Bool
  ctrl_gate now c =
      if is_quiet now c
      then (refuse "control: syncing, wait 15 s" c, false)
      else if not c.ctrl_local.control_enabled
      then (refuse "control disabled" c, false)
      else if not c.local.plc_connected
      then (refuse "control: plc offline" c, false)
      else (c, true)

  -- `ctrlPost`.
  unfoldable pub ctrl_post : CmdTag → Bool → F → Ctrl F → Ctrl F × Bool
  ctrl_post tag is_bool value c =
      let (b, done) = cmd_post (record { tag = tag; is_bool = is_bool; value = value }) c.board in
      let c1 : Ctrl F = record c { board = b } in
      if done then (c1, true) else (refuse "control: queue full" c1, false)

  -- `onControlEnabledChange`.
  unfoldable pub on_control_enabled : ℕ → Bool → Ctrl F → Ctrl F
  on_control_enabled now on c =
      if is_quiet now c
      then record c { last_error = "control: syncing, wait 15 s"; master = false }
      else (let k : CtrlState F = record (c.ctrl_local) { control_enabled = on } in
          record c {
            ctrl_local = k;
            board = ctrl_write k c.board;
            last_error = if on then "control enabled" else "control disabled";
            master = on;
          })

  -- `ctrlManualHoldActive`.
  unfoldable pub manual_hold_active : ℕ → ℕ → Ctrl F → Ctrl F × Bool
  manual_hold_active now stamp c =
      if not c.hold_set
      then (c, false)
      else if is_past now (add32 c.post_ms hold_cap_ms)
          || is_past stamp (add32 c.post_ms hold_ticks_ms)
      then (record c { hold_set = false }, false)
      else (c, true)

-- `(int32_t)` minutes into the allowed range.
abbrev pub clamp : ℕ → ℕ → ℤ → ℕ
clamp lo hi (negsuc n) = lo
clamp lo hi (pos n) = if ltb n lo then lo else if ltb hi n then hi else n

-- The callbacks that post a value.
module _ (fl : Floats) where
  open fl use {F, lit, of_ℕ, lt, le}

  abbrev pub bool_value : Bool → F
  bool_value on = if on then lit 1 1 else lit 0 1

  -- `ctrlBool`.
  unfoldable pub ctrl_bool : ℕ → CmdTag → Bool → Ctrl F → Ctrl F × Bool
  ctrl_bool now tag on c =
      let (c1, pass) = ctrl_gate now c in
      if pass then ((ctrl_post tag true (bool_value on) c1).0, on) else (c1, false)

  -- `onAdsorpTimeMsChange` and `onDesorpTimeMsChange`.
  unfoldable pub ctrl_minutes : ℕ → CmdTag → ℤ → Ctrl F → Ctrl F × ℤ
  ctrl_minutes now tag asked c =
      let (c1, pass) = ctrl_gate now c in
      let mins = clamp time_min_min time_max_min asked in
      if pass then ((ctrl_post tag false (of_ℕ mins) c1).0, pos mins) else (c1, asked)

  -- `ctrlManual`; `actual` is what the PLC shows.
  unfoldable pub ctrl_manual : ℕ → CmdTag → Bool → Bool → Ctrl F → Ctrl F × Bool
  ctrl_manual now tag on actual c =
      let (c1, pass) = ctrl_gate now c in
      let (c2, done) = ctrl_post tag true (bool_value on) c1 in
      if not pass
      then (c1, actual)
      else if on && not (c1.local.action_word == 0)
      then (refuse "manual: cycle running" c1, actual)
      else if done
      then (record c2 { hold_set = true; post_ms = now }, on)
      else (c2, actual)

  -- `ctrlClearFault`.
  unfoldable pub ctrl_clear_fault : ℕ → CmdTag → Bool → Ctrl F → Ctrl F × Bool
  ctrl_clear_fault now tag on c =
      let (c1, pass) = ctrl_gate now c in
      if not on
      then (c, on)
      else if pass
      then ((ctrl_post tag true (lit 1 1) c1).0, false)
      else (c1, false)

  -- `onFlowResetTotalChange`.
  unfoldable pub on_flow_reset_total : ℕ → Bool → Ctrl F → Ctrl F × Bool
  on_flow_reset_total now on c =
      if not on
      then (c, on)
      else if is_quiet now c
      then (c, false)
      else ((ctrl_post CmdTag.flow_reset_total true (lit 1 1) c).0, false)

  -- What the switches of the manual outputs fall back to.
  unfoldable pub s4_actual : PlcSnapshot F → Bool
  s4_actual w = w.valve_ok 17 && le (lit 50 1) (w.valve 17)

  unfoldable pub pump_actual : PlcSnapshot F → Bool
  pump_actual w = w.valve_ok 11 && lt (lit 1 2) (w.valve 11)

  unfoldable pub s5_actual : PlcSnapshot F → Bool
  s5_actual w = w.valve_ok 1 && lt (lit 1 2) (w.valve 1)

  abbrev pub is_open : DoorState → Bool
  is_open DoorState.open_ = true
  is_open _ = false

  unfoldable pub top_actual : PlcSnapshot F → Bool
  top_actual w = is_open (w.door_state 0) && is_open (w.door_state 1)

  unfoldable pub bot_actual : PlcSnapshot F → Bool
  bot_actual w = is_open (w.door_state 2) && is_open (w.door_state 3)
