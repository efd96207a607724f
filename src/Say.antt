-- ===== src/Say.antt =====
-- plc_thread.h, `clearSay`: a text for the operator, written over `lastError` and latched for a
-- minute, and the overlay that shows it again wherever `lastError` reads "ok".
pub mod Overlay
use Prim.Native.String.{String}
use text.Mathlib.Text.{◌==◌ as str_eq}
use opta_gateway_mt.Base.{ℕ, Bool, true, false, add32, is_past, if◌then◌else◌}

abbrev pub clear_hold_ms : ℕ
clear_hold_ms = 60000

-- `s_clearText`, `s_clearTextUntil`, `s_clearTextOn`, and the snapshot's `lastError`.
pub record Said : Type 0 where
  pub last_error : String
  pub text : String
  pub until : ℕ
  pub on : Bool

unfoldable pub say : ℕ → String → Said → Said
say now t s = record { last_error = t; text = t; until = add32 now clear_hold_ms; on = true }

-- The last lines of `clearVerifyTick`.
unfoldable pub overlay : ℕ → Said → Said
overlay now s =
    if s.on
    then if is_past now s.until
      then record s { on = false }
      else if str_eq s.last_error "ok"
      then record s { last_error = s.text }
      else s
    else s
