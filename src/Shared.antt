-- ===== src/Shared.antt =====
-- shared.h: the only surface that the two threads share. A snapshot, a control block, a queue of
-- one-shot commands, and one mutex whose sections are the operations below. The arrays of a
-- snapshot are functions of the slot, its `char[]` are texts.
pub mod Handover
pub mod Commands
pub mod Samples
mod Examples
use Prim.Native.String.{String}
use opta_gateway_mt.Base.{
  ℕ, Bool, true, false, List, [], ◌∷◌, ◌++◌, Option, none, some, length, ltb, if◌then◌else◌, inc32,
  not, ◌==◌,
}

pub data DoorState : Type 0 where
  unknown shut open_ mid conflict : DoorState

pub record PlcSnapshot (F : Type 0) : Type 0 where
  pub seq : ℕ
  pub stamp_ms : ℕ
  pub sensor : ℕ → F
  pub ok : ℕ → Bool
  pub fails : ℕ
  pub valve : ℕ → F
  pub valve_ok : ℕ → Bool
  pub valve_fails : ℕ
  pub fail_tag : String
  pub action_word : ℕ
  pub state_word : ℕ
  pub state_text : String
  pub door_stat : String
  pub door_state : ℕ → DoorState
  pub laco_stat : String
  pub laco_jobs : ℕ
  pub state_fails : ℕ
  pub state_seq : ℕ
  pub adsorp_elapsed_s : ℕ
  pub desorp_elapsed_t6_s : ℕ
  pub desorp_elapsed_t11_s : ℕ
  pub adsorp_pre_min : ℕ
  pub desorp_pre_min : ℕ
  pub plc_connected : Bool
  pub eip_ms : ℕ
  pub last_cip_status : ℕ
  pub last_error : String
  pub plc_stack_free : ℕ
  pub cmd_dropped : ℕ
  pub flow_rate : F
  pub flow_total : F
  pub flow_batch : F
  pub water_owed_l : F
  pub live_cum : F
  pub live_trip : F
  pub live_trip_valid : Bool
  pub plc_flow_write_ok : Bool
  pub hmi_write_ok : Bool
  pub hmi_write_count : ℕ
  pub plc_total_restores : ℕ
  pub desorp_pre_min_t11 : ℕ
  pub flow_mismatch_count : ℕ
  pub hp_real : ℕ → F
  pub hp_real_ok : ℕ → Bool
  pub hp_bool : ℕ → F
  pub hp_bool_ok : ℕ → Bool
  pub hp_fails : ℕ
  pub hp_data_age_s : ℕ
  pub hp_data_stale : Bool
  pub hp_seq : ℕ

pub record CtrlState (F : Type 0) : Type 0 where
  pub control_enabled : Bool
  pub flow_rate : F
  pub flow_batch : F

pub data CmdTag : Type 0 where
  nothing : CmdTag
  start_button stop_button reset_button purge_button : CmdTag
  adsorp_time_ms desorp_time_ms : CmdTag
  water_reset_total flow_reset_total : CmdTag
  auto_adsorp_enable : CmdTag
  hp_enable hp_mode_cool hp_htg_sp1 hp_htg_sp2 : CmdTag
  hp_htg_delta1 hp_htg_delta2 hp_clg_sp1 hp_clg_sp2 : CmdTag
  hp_clg_delta1 hp_clg_delta2 hp_htg_high_limit hp_manual_override : CmdTag
  clear_press_error clear_temp_error clear_gen_error : CmdTag
  man_s4 man_pump man_s5 : CmdTag
  man_topdoors man_botdoors : CmdTag

pub record Cmd (F : Type 0) : Type 0 where
  pub tag : CmdTag
  pub is_bool : Bool
  pub value : F

-- `rtos::Mail<Cmd,16>`.
abbrev pub queue_slots : ℕ
queue_slots = 16

-- The shared objects, `g_published` to `g_cmdDropped`.
pub record Board (F : Type 0) : Type 0 where
  pub published : PlcSnapshot F
  pub ctrl : CtrlState F
  pub queue : List (Cmd F)
  pub dropped : ℕ

module _ {F : Type 0} where
  -- `sharedPublish`: stamps the working copy, and publishes it under the next sequence number.
  unfoldable pub publish : ℕ → PlcSnapshot F → Board F → PlcSnapshot F × Board F
  publish now working b =
      let w : PlcSnapshot F = record working { stamp_ms = now; seq = inc32 b.published.seq } in
      (w, record b { published = w })

  -- `sharedTake`: the copy, the consumer's `lastSeq`, and whether it advanced.
  unfoldable pub take_snapshot : ℕ → Board F → PlcSnapshot F × ℕ × Bool
  take_snapshot last_seq b =
      let out = b.published in
      if out.seq == last_seq then (out, last_seq, false) else (out, out.seq, true)

  unfoldable pub ctrl_write : CtrlState F → Board F → Board F
  ctrl_write c b = record b { ctrl = c }

  unfoldable pub ctrl_read : Board F → CtrlState F
  ctrl_read b = b.ctrl

  -- `sharedCmdPost`: never waits, a full queue drops the command and counts it.
  unfoldable pub cmd_post : Cmd F → Board F → Board F × Bool
  cmd_post c b =
      if ltb (length b.queue) queue_slots
      then (record b { queue = b.queue ++ (c ∷ []) }, true)
      else (record b { dropped = inc32 b.dropped }, false)

  cmd_take_from : List (Cmd F) → Board F → Option (Cmd F) × Board F
  cmd_take_from [] b = (none, b)
  cmd_take_from (c ∷ q) b = (some c, record b { queue = q })

  -- `sharedCmdTake`.
  unfoldable pub cmd_take : Board F → Option (Cmd F) × Board F
  unfolding cmd_take_from
  cmd_take b = cmd_take_from b.queue b
