-- ===== src/Replay/Tick.antt =====
-- influx_replay.h: `replayTick`, the cloud thread's pass over the ring. The status line that it puts
-- on the dashboard is not modelled.
use opta_gateway_mt.Base.{
  ◌||◌, ltb, sub32, ◌&&◌, leb, length, not, [], ◌==◌, some, none, take, inc32, List, if◌then◌else◌,
  Bool, false, Option, ℕ,
}
use opta_gateway_mt.Base.Floats.{Floats}
use opta_gateway_mt.Shared.{PlcSnapshot}
use opta_gateway_mt.Rings.{forget, entries}
use opta_gateway_mt.Replay.{
  Rec, Replay, Pushed, is_accepted, is_refused, capture, drop_oldest, reject_oldest, period_ms,
  max_recs, settle_up_ms, per_post, min_down_ms, live_after_ms,
}
use opta_gateway_mt.Replay.Lines.{Text, build_batch}

abbrev pub max_body : ℕ
max_body = 10240

-- What one pass meets: `millis()`, `time(nullptr)`, `connected()`, the cloud thread's snapshot, if it
-- has had one, `influxPushReady` and `influxPush`.
pub record Pass (F : Type 0) : Type 0 where
  pub now : ℕ
  pub clock : ℕ
  pub cloud_up : Bool
  pub snapshot : Option (PlcSnapshot F)
  pub ready : Bool
  pub push : Text → Pushed

module _ {F : Type 0} where
  abbrev pub capture_from : Option (PlcSnapshot F) → ℕ → ℕ → Replay F → Replay F
  capture_from none clock now r = r
  capture_from (some s) clock now r = capture clock s now (record r { last_cap_ms = now })

  -- The pass of an outage.
  unfoldable pub watch_down : Pass F → Replay F → Replay F
  watch_down p r =
      let down = if r.down_since == 0 then p.now else r.down_since in
      let d : Replay F = record r { cloud_up_since = 0; down_since = down } in
      if leb min_down_ms (sub32 p.now down)
        && (d.last_cap_ms == 0 || leb period_ms (sub32 p.now d.last_cap_ms))
      then capture_from p.snapshot p.clock p.now d
      else d

  unfoldable pub watch_up : Pass F → Replay F → Replay F
  watch_up p r = record r {
    down_since = 0;
    cloud_up_since = if r.cloud_up_since == 0 then p.now else r.cloud_up_since;
  }

  abbrev pub watch : Pass F → Replay F → Replay F
  watch p r = if p.cloud_up then watch_up p r else watch_down p r

  -- The early returns before a POST.
  abbrev pub may_drain : Pass F → Replay F → Bool
  may_drain p r =
      if r.ring.count == 0
      then false
      else if not p.cloud_up && ltb (sub32 p.now r.down_since) live_after_ms
      then false
      else if p.cloud_up && ltb (sub32 p.now r.cloud_up_since) settle_up_ms
      then false
      else p.ready

  -- What the end of a POST of `used` records does to them.
  unfoldable pub settle : Pushed → ℕ → Replay F → Replay F
  settle code used r =
      let d : Replay F = record r { posts = inc32 r.posts } in
      let f : Replay F = record d { post_fails = inc32 d.post_fails } in
      if is_accepted code
      then drop_oldest used d
      else if is_refused code
      then reject_oldest used f
      else f

  -- The POST of a body that has been built, if it says anything.
  unfoldable pub post : (Text → Pushed) → Text × ℕ → Replay F → Replay F × Option Text
  post push b r =
      if b.1 == 0
      then (record r { ring = forget 1 r.ring; dropped = inc32 r.dropped }, none)
      else if length b.0 == 0
      then (reject_oldest b.1 r, none)
      else (settle (push b.0) b.1 r, some b.0)

module _ (fl : Floats) (thing : Text) where
  abbrev pub no_rec : Rec fl.F
  no_rec = record {
    epoch = 0;
    ok = λ _. false;
    cum_ok = false;
    v = λ _. fl.lit 0 1;
    flow_rate = fl.lit 0 1;
    flow_batch = fl.lit 0 1;
    cum = fl.lit 0 1;
    plc = false;
  }

  -- The records of the ring, oldest first.
  abbrev pub queued : Replay fl.F → List (Rec fl.F)
  queued r = entries max_recs no_rec r.ring

  abbrev pub batch : Replay fl.F → Text × ℕ
  batch r = build_batch fl thing max_body (take per_post (queued r)) []

  -- The rest of the pass: the state after it, and the body that was posted, if one was.
  unfoldable pub drain : Pass fl.F → Replay fl.F → Replay fl.F × Option Text
  drain p r = if may_drain p r then post p.push (batch r) r else (r, none)

  -- `replayTick`.
  unfoldable pub tick : Pass fl.F → Replay fl.F → Replay fl.F × Option Text
  tick p r = drain p (watch p r)
