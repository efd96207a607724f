-- ===== src/Replay.antt =====
-- influx_replay.h: the records of a cloud outage, kept in a ring and sent to InfluxDB later. One
-- reading of the RTC and of `millis()` stands for those of a call; `cloudSideSnapshot()`, the push
-- and the KVStore are arguments. The bits of `okMask` are the functions `ok` and `cum_ok`; the bit for
-- the flow is always set.
pub mod Lines
pub mod Batch
pub mod Tick
pub mod Kept
pub mod Late
pub mod Store
pub mod Restore
mod Examples
use opta_gateway_mt.Base.{
  ◌^◌, ℕ, zero, suc, ◌+◌, ◌-◌, ◌%◌, Bool, true, false, not, ◌&&◌, ◌||◌, List, [], ◌∷◌, ◌++◌, length,
  take, ltb, leb, ◌==◌, if◌then◌else◌, Option, none, some, sub32, inc32, add32,
}
use opta_gateway_mt.Rings.{Ring, push, forget, entries}
use opta_gateway_mt.Shared.{PlcSnapshot}

abbrev pub period_ms : ℕ
period_ms = 10000

abbrev pub max_recs : ℕ
max_recs = 360

abbrev pub settle_up_ms : ℕ
settle_up_ms = 120000

abbrev pub per_post : ℕ
per_post = 3

-- `3 * SAMPLE_INTERVAL_MS`.
abbrev pub fresh_ms : ℕ
fresh_ms = 6000

abbrev pub min_down_ms : ℕ
min_down_ms = 5000

abbrev pub live_after_ms : ℕ
live_after_ms = 60000

abbrev pub epoch_min : ℕ
epoch_min = 1600000000

abbrev pub epoch_max : ℕ
epoch_max = 2000000000

abbrev pub epoch_step_max : ℕ
epoch_step_max = 86400

pub record Rec (F : Type 0) : Type 0 where
  pub epoch : ℕ
  pub ok : ℕ → Bool
  pub cum_ok : Bool
  pub v : ℕ → F
  pub flow_rate : F
  pub flow_batch : F
  pub cum : F
  pub plc : Bool

-- The file's statics, and `replayTick`'s own.
pub record Replay (F : Type 0) : Type 0 where
  pub ring : Ring (Rec F)
  pub last_cap_ms : ℕ
  pub cloud_up_since : ℕ
  pub sent_recs : ℕ
  pub posts : ℕ
  pub post_fails : ℕ
  pub dropped : ℕ
  pub rejected : ℕ
  pub last_epoch : ℕ
  pub bad_epoch : ℕ
  pub down_since : ℕ

abbrev pub is_plausible : ℕ → Bool
is_plausible e = not (ltb e epoch_min || ltb epoch_max e)

-- The end of a push: the HTTP status, or a negative local code.
pub data Pushed : Type 0 where
  status : ℕ → Pushed
  local_error : Pushed

abbrev pub is_accepted : Pushed → Bool
is_accepted (status c) = leb 200 c && ltb c 300
is_accepted local_error = false

abbrev pub is_refused : Pushed → Bool
is_refused (status c) = c == 400 || c == 413 || c == 422
is_refused local_error = false

module _ {F : Type 0} where
  -- `rpEpochSane`.
  unfoldable pub epoch_sane : ℕ → Replay F → Bool
  epoch_sane e r =
      let d = if ltb r.last_epoch e then e - r.last_epoch else r.last_epoch - e in
      is_plausible e && (r.last_epoch == 0 || not (ltb epoch_step_max d))

  abbrev pub record_of : ℕ → PlcSnapshot F → Rec F
  record_of epoch s = record {
    epoch = epoch;
    ok = s.ok;
    cum_ok = s.plc_connected;
    v = s.sensor;
    flow_rate = s.flow_rate;
    flow_batch = s.flow_batch;
    cum = s.live_cum;
    plc = s.plc_connected;
  }

  -- `replayCapture`; the clock is `time(nullptr)`, 0 where it is not positive.
  unfoldable pub capture : ℕ → PlcSnapshot F → ℕ → Replay F → Replay F
  capture clock s now r =
      if clock == 0 || not (epoch_sane (clock % 2 ^ 32) r)
      then record r { bad_epoch = inc32 r.bad_epoch }
      else let d : Replay F = record r { last_epoch = clock % 2 ^ 32 } in
        if ltb fresh_ms (sub32 now s.stamp_ms) then d else record d {
          ring = push max_recs (record_of (clock % 2 ^ 32) s) d.ring;
          dropped = if ltb d.ring.count max_recs then d.dropped else inc32 d.dropped;
        }

  -- `rpDropOldest` and `rpRejectOldest`.
  unfoldable pub drop_oldest : ℕ → Replay F → Replay F
  drop_oldest k r =
      let n = if ltb r.ring.count k then r.ring.count else k in
      record r { ring = forget n r.ring; sent_recs = add32 r.sent_recs n }

  unfoldable pub reject_oldest : ℕ → Replay F → Replay F
  reject_oldest k r =
      let n = if ltb r.ring.count k then r.ring.count else k in
      record r { ring = forget n r.ring; rejected = add32 r.rejected n }
