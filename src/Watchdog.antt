-- ===== src/Watchdog.antt =====
-- wd_feeder.h: the watchdog feeder, its three thread budgets and its two stall figures.
-- One pass of `wdFeederLoop` is one call of `feed`.
pub mod Blame
pub mod Window
mod Examples
use opta_gateway_mt.Base.{
  ℕ, ◌/◌, Bool, true, false, not, ◌||◌, ltb, leb, sub32, inc32, if◌then◌else◌, List, [], ◌∷◌,
}

abbrev pub stall_giveup_ms : ℕ
stall_giveup_ms = 60000

abbrev pub cloud_giveup_ms : ℕ
cloud_giveup_ms = 300000

abbrev pub stall_window_ms : ℕ
stall_window_ms = 600000

-- The file's statics, and the loop's own `winStart`.
pub record Feeder : Type 0 where
  pub where_main : ℕ
  pub where_plc : ℕ
  pub where_cloud : ℕ
  pub main_beat_ms : ℕ
  pub plc_beat_ms : ℕ
  pub cloud_beat_ms : ℕ
  pub stall_max_ms : ℕ
  pub stall_where : ℕ
  pub win_max_ms : ℕ
  pub win_where : ℕ
  pub prev_win_max_ms : ℕ
  pub prev_win_where : ℕ
  pub refusals : ℕ
  pub seen : Bool
  pub marker_done : Bool
  pub win_start : ℕ

pub data Who : Type 0 where
  main plc cloud : Who

-- The name in the marker: section code, thread, age of its beat.
pub record Culprit : Type 0 where
  pub who : Who
  pub at : ℕ
  pub since : ℕ

-- What a pass does to the hardware. `reset` writes the marker and never returns.
pub data Outcome : Type 0 where
  unarmed : Outcome
  kicked : Outcome
  reset : Culprit → Outcome
  refused : Outcome

-- The loop's first lines: every beat is the start time.
unfoldable pub begin : ℕ → Feeder → Feeder
begin t0 f = record f { main_beat_ms = t0; plc_beat_ms = t0; cloud_beat_ms = t0; win_start = t0 }

unfoldable pub beat : Who → ℕ → Feeder → Feeder
beat main now f = record f { main_beat_ms = now }
beat plc now f = record f { plc_beat_ms = now }
beat cloud now f = record f { cloud_beat_ms = now }

unfoldable pub go_to : Who → ℕ → Feeder → Feeder
go_to main at f = record f { where_main = at }
go_to plc at f = record f { where_plc = at }
go_to cloud at f = record f { where_cloud = at }

-- `sinceMain`, `sincePlc`, `sinceCloud` and the limit of each.
unfoldable pub since_of : Who → ℕ → Feeder → ℕ
since_of main now f = sub32 now f.main_beat_ms
since_of plc now f = sub32 now f.plc_beat_ms
since_of cloud now f = sub32 now f.cloud_beat_ms

unfoldable pub where_of : Who → Feeder → ℕ
where_of main f = f.where_main
where_of plc f = f.where_plc
where_of cloud f = f.where_cloud

abbrev pub budget : Who → ℕ
budget main = 60000
budget plc = 60000
budget cloud = 300000

-- The oldest beat, and the section of its thread.
unfoldable pub worst : ℕ → Feeder → Culprit
unfolding since_of
worst now f =
    let b : Culprit = record { who = main; at = f.where_main; since = since_of main now f } in
    let b : Culprit =
      if ltb b.since (since_of plc now f)
      then record { who = plc; at = f.where_plc; since = since_of plc now f }
      else b in
    if ltb b.since (since_of cloud now f)
    then record { who = cloud; at = f.where_cloud; since = since_of cloud now f }
    else b

-- The lifetime maximum, the turn of the window, the window's maximum.
unfoldable pub note_stall : ℕ → Feeder → Feeder
unfolding worst
note_stall now f =
    let b = worst now f in
    let f1 : Feeder =
      if ltb f.stall_max_ms b.since
      then record f { stall_max_ms = b.since; stall_where = b.at }
      else f in
    let f2 : Feeder =
      if leb stall_window_ms (sub32 now f1.win_start)
      then record f1 {
        prev_win_max_ms = f1.win_max_ms;
        prev_win_where = f1.win_where;
        win_max_ms = 0;
        win_where = 0;
        win_start = now;
      }
      else f1 in
    if ltb f2.win_max_ms b.since then record f2 { win_max_ms = b.since; win_where = b.at } else f2

-- The thread furthest past its own budget, by whole per-mille.
unfoldable pub blame : ℕ → Feeder → Culprit
unfolding since_of
blame now f =
    let r_main = since_of main now f / 60 in
    let r_plc = since_of plc now f / 60 in
    let r_cloud = since_of cloud now f / 300 in
    let on_cloud : Culprit = record {
      who = cloud;
      at = f.where_cloud;
      since = since_of cloud now f;
    } in
    if ltb r_main r_plc
    then if ltb r_plc r_cloud
      then on_cloud
      else record { who = plc; at = f.where_plc; since = since_of plc now f }
    else if ltb r_main r_cloud
    then on_cloud
    else record { who = main; at = f.where_main; since = since_of main now f }

unfoldable pub over_budget : ℕ → Feeder → Bool
unfolding since_of
over_budget now f =
    ltb stall_giveup_ms (since_of main now f)
    || ltb stall_giveup_ms (since_of plc now f)
    || ltb cloud_giveup_ms (since_of cloud now f)

-- One pass at `now`; `running` is the hardware watchdog's `is_running()`.
unfoldable pub feed : ℕ → Bool → Feeder → Feeder × Outcome
feed now running f =
    let g = note_stall now f in
    let h : Feeder = record g { seen = true } in
    if not running
    then (g, unarmed)
    else if not (over_budget now h)
    then (h, kicked)
    else if h.marker_done
    then (record h { refusals = inc32 h.refusals }, refused)
    else (record h { marker_done = true }, reset (blame now h))

-- `wdStallWindowMax` and `wdStallWindowWhere`.
unfoldable pub stall_window_max : Feeder → ℕ
stall_window_max f = if leb f.prev_win_max_ms f.win_max_ms then f.win_max_ms else f.prev_win_max_ms

unfoldable pub stall_window_where : Feeder → ℕ
stall_window_where f = if leb f.prev_win_max_ms f.win_max_ms then f.win_where else f.prev_win_where

-- What reaches the feeder between two passes: the threads' own stamps.
pub data Event : Type 0 where
  pass : ℕ → Bool → Event
  stamp : Who → ℕ → Event
  enter : Who → ℕ → Event

unfoldable pub step : Event → Feeder → Feeder
step (pass now running) f = (feed now running f).0
step (stamp who now) f = beat who now f
step (enter who at) f = go_to who at f

unfoldable pub run : List Event → Feeder → Feeder
run [] f = f
run (e ∷ es) f = run es (step e f)
