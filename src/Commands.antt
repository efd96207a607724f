-- ===== src/Commands.antt =====
-- plc_thread.h: the commands that the cloud thread has posted, as the PLC thread carries them out:
-- `drainCommands`, `applyCommand` and `clearFault`. They work on the parts of Manual, Laco and Water,
-- which share the operator's text, `said`; each part is given it and hands it back.
pub mod Gate
mod Examples
use Prim.Native.String.{◌∷◌, String, ◌++◌ as ◌<>◌}
use opta_gateway_mt.Base.{
  ◌∷◌, List, add32, ◌++◌, ◌&&◌, max, Option, ◌*◌, min, if◌then◌else◌, not, Bool, none, some, [],
  false, true, ℕ, zero, suc,
}
use opta_gateway_mt.Base.Floats.{Floats}
use opta_gateway_mt.Shared.{
  PlcSnapshot, CmdTag, nothing, start_button, stop_button, reset_button, purge_button,
  adsorp_time_ms, desorp_time_ms, water_reset_total, flow_reset_total, auto_adsorp_enable,
  hp_enable, hp_mode_cool, hp_htg_sp1, hp_htg_sp2, hp_htg_delta1, hp_htg_delta2, hp_clg_sp1,
  hp_clg_sp2, hp_clg_delta1, hp_clg_delta2, hp_htg_high_limit, hp_manual_override,
  clear_press_error, clear_temp_error, clear_gen_error, man_s4, man_pump, man_s5, man_topdoors,
  man_botdoors, Cmd,
}
use opta_gateway_mt.Say.{Said, say}
use opta_gateway_mt.Manual
use opta_gateway_mt.Manual.{Manual, Takes, Out, Out.s4, Out.s5, man_valve}
use opta_gateway_mt.Laco.{Laco, start}
use opta_gateway_mt.Water.{Water, water_on_reset}
use opta_gateway_mt.Water

abbrev pub clear_verify_ms : ℕ
clear_verify_ms = 4000

abbrev pub time_min : ℕ
time_min = 5

abbrev pub time_max : ℕ
time_max = 60

abbrev pub ms_per_min : ℕ
ms_per_min = 60000

-- The numbers of the tags that `applyCommand` does not know.
abbrev pub cmd_number : CmdTag → String
cmd_number water_reset_total = "7"
cmd_number auto_adsorp_enable = "9"
cmd_number hp_htg_sp1 = "12"
cmd_number hp_htg_sp2 = "13"
cmd_number hp_htg_delta1 = "14"
cmd_number hp_htg_delta2 = "15"
cmd_number hp_clg_sp1 = "16"
cmd_number hp_clg_sp2 = "17"
cmd_number hp_clg_delta1 = "18"
cmd_number hp_clg_delta2 = "19"
cmd_number hp_htg_high_limit = "20"
cmd_number hp_manual_override = "21"
cmd_number _ = "0"

abbrev pub is_bookkeeping : CmdTag → Bool
is_bookkeeping flow_reset_total = true
is_bookkeeping _ = false

-- The faults that can be cleared, `CLEAR_TAG`.
pub data Fault : Type 0 where
  press_error temp_error gen_error : Fault

abbrev pub fault_tag : Fault → String
fault_tag press_error = "Press_Error"
fault_tag temp_error = "Temp_Error"
fault_tag gen_error = "Gen_Error"

-- What `applyCommand` itself writes: a button's bit, a preset in milliseconds, or a fault's 0.
pub data Order : Type 0 where
  set_bit : String → Bool → Order
  set_preset : String → ℕ → Order
  clear_bit : Fault → Order

pub record Done : Type 0 where
  pub order : Order
  pub taken : Bool

-- The PLC thread's state that commands touch. `clear_due` is `s_clearDueMs` where it is armed.
pub record Thread (F : Type 0) : Type 0 where
  pub said : Said
  pub manual : Manual
  pub laco : Laco F
  pub water : Water F
  pub clear_due : Fault → Option ℕ
  pub done : List Done

-- What the PLC answers while the commands are carried out.
pub record Answers (F : Type 0) : Type 0 where
  pub now : ℕ
  pub read : PlcSnapshot F
  pub manual_takes : Takes
  pub water_takes : Water.Pass F
  pub takes : Order → Bool
  pub connected : Thread F → Bool

abbrev pub put_due : Fault → ℕ → (Fault → Option ℕ) → Fault → Option ℕ
put_due press_error t f press_error = some t
put_due press_error t f temp_error = f temp_error
put_due press_error t f gen_error = f gen_error
put_due temp_error t f press_error = f press_error
put_due temp_error t f temp_error = some t
put_due temp_error t f gen_error = f gen_error
put_due gen_error t f press_error = f press_error
put_due gen_error t f temp_error = f temp_error
put_due gen_error t f gen_error = some t

module _ {F : Type 0} where
  -- `snprintf` into `lastError`.
  abbrev pub report : String → Thread F → Thread F
  report text s = record s { said = record (s.said) { last_error = text } }

  abbrev pub note : Order → Bool → Thread F → Thread F
  note o ok s = record s { done = s.done ++ (record { order = o; taken = ok } ∷ []) }

  -- A write whose success decides the text.
  abbrev pub order_bit : Answers F → String → Bool → String → String → Thread F → Thread F
  order_bit a tag on fine bad s =
      let ok = a.takes (set_bit tag on) in
      report (if ok then fine else bad) (note (set_bit tag on) ok s)

  abbrev pub order_preset : Answers F → String → ℕ → Thread F → Thread F
  order_preset a tag ms s = note (set_preset tag ms) (a.takes (set_preset tag ms)) s

  -- `clearFault`.
  abbrev pub clear_fault : Answers F → Fault → Thread F → Thread F
  clear_fault a f s =
      let ok = a.takes (clear_bit f) in
      let s1 = note (clear_bit f) ok s in
      let text = if ok then fault_tag f <> " cleared" else ("write " <> fault_tag f) <> " failed" in
      let s2 : Thread F = record s1 { said = say a.now text s1.said } in
      if ok
      then record s2 { clear_due = put_due f (add32 a.now clear_verify_ms) s2.clear_due }
      else s2

  -- A part is given the text, and hands it back.
  abbrev pub with_manual : (Manual → Manual) → Thread F → Thread F
  with_manual act s =
      let m = act (record (s.manual) { said = s.said }) in record s { manual = m; said = m.said }

  abbrev pub with_laco : (Laco F → Laco F) → Thread F → Thread F
  with_laco act s =
      let l = act (record (s.laco) { said = s.said }) in record s { laco = l; said = l.said }

  abbrev pub unknown_command : CmdTag → Thread F → Thread F
  unknown_command t s = report (("cmd " <> cmd_number t) <> " not in batch 1") s

module _ (fl : Floats) where
  -- `(int32_t)c.value`, clamped; what is below zero ends at the lower clamp too.
  abbrev pub clamped : fl.F → ℕ
  clamped v = min (max (if fl.lt v (fl.lit 0 1) then 0 else fl.trunc v) time_min) time_max

  abbrev pub set_adsorp : Answers fl.F → fl.F → Thread fl.F → Thread fl.F
  set_adsorp a v s =
      let ms = clamped v * ms_per_min in
      report
        (if a.takes (set_preset "Timer_3.PRE" ms)
          then "adsorp time set"
          else "write Timer_3.PRE failed")
        (order_preset a "Timer_3.PRE" ms s)

  abbrev pub set_desorp : Answers fl.F → fl.F → Thread fl.F → Thread fl.F
  set_desorp a v s =
      let ms = clamped v * ms_per_min in
      let ok6 = a.takes (set_preset "Timer_6[3].PRE" ms) in
      let ok11 = a.takes (set_preset "Timer_11[3].PRE" ms) in
      report
        (if ok6 && ok11
          then "desorp time set"
          else if not ok6 && not ok11
          then "write Timer_6/11[3].PRE failed"
          else if not ok6
          then "write Timer_6[3].PRE failed"
          else "write Timer_11[3].PRE failed")
        (order_preset a "Timer_11[3].PRE" ms (order_preset a "Timer_6[3].PRE" ms s))

  abbrev pub reset_water : Answers fl.F → Thread fl.F → Thread fl.F
  reset_water a s =
      let r = water_on_reset fl a.water_takes s.water in
      report (if r.1 then "all water totals reset" else "water reset: PLC write failed")
        (record s { water = r.0 })

  abbrev pub apply_tag : Answers fl.F → CmdTag → Bool → fl.F → Thread fl.F → Thread fl.F
  apply_tag a start_button on v =
      order_bit a "Start_Button" on (if on then "start set" else "start cleared")
        "Start_Button write failed"
  apply_tag a stop_button on v =
      order_bit a "Stop_Button" on (if on then "stop set" else "stop cleared")
        "write Stop_Button failed"
  apply_tag a reset_button on v =
      order_bit a "Reset_Button" on (if on then "reset set" else "reset cleared")
        "write Reset_Button failed"
  apply_tag a purge_button on v =
      order_bit a "Purge_Button" on (if on then "purge set" else "purge cleared")
        "write Purge_Button failed"
  apply_tag a adsorp_time_ms on v = set_adsorp a v
  apply_tag a desorp_time_ms on v = set_desorp a v
  apply_tag a hp_enable on v = order_bit a "HP_Enable" on "hp enable set" "hp enable write failed"
  apply_tag a hp_mode_cool on v =
      order_bit a "HP_Mode_CoolRequest" on "hp mode set" "hp mode write failed"
  apply_tag a flow_reset_total on v = reset_water a
  apply_tag a clear_press_error on v = clear_fault a press_error
  apply_tag a clear_temp_error on v = clear_fault a temp_error
  apply_tag a clear_gen_error on v = clear_fault a gen_error
  apply_tag a man_s4 on v =
      with_manual (λ m. (man_valve fl a.manual_takes a.now a.read Out.s4 on m).0)
  apply_tag a man_pump on v =
      with_manual (λ m. (Manual.man_pump fl a.manual_takes a.now a.read on m).0)
  apply_tag a man_s5 on v =
      with_manual (λ m. (man_valve fl a.manual_takes a.now a.read Out.s5 on m).0)
  apply_tag a man_topdoors on v = with_laco (λ l. (start fl a.now a.read true on l).0)
  apply_tag a man_botdoors on v = with_laco (λ l. (start fl a.now a.read false on l).0)
  apply_tag a t on v = unknown_command t

  -- `applyCommand`.
  unfoldable pub apply_command : Answers fl.F → Cmd fl.F → Thread fl.F → Thread fl.F
  apply_command a c s = apply_tag a c.tag (not (fl.eq c.value (fl.lit 0 1))) c.value s

  -- One command of the queue, in the order of the source's tests.
  unfoldable pub drain_one : Answers fl.F → Bool → Bool → Cmd fl.F → Thread fl.F → Thread fl.F
  drain_one a allow enabled c s =
      let next = apply_command a c s in
      if not allow
      then report "control: plc offline" s
      else if not enabled && not (is_bookkeeping c.tag)
      then report "control disabled" s
      else if not (a.connected s)
      then report "control: plc offline" s
      else next

  -- `drainCommands`, on the commands that `sharedCmdTake` gives in turn.
  unfoldable pub drain_commands :
      Answers fl.F → Bool → Bool → List (Cmd fl.F) → Thread fl.F → Thread fl.F
  drain_commands a allow enabled [] s = s
  drain_commands a allow enabled (c ∷ cs) s =
      drain_commands a allow enabled cs (drain_one a allow enabled c s)
