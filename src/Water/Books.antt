-- ===== src/Water/Books.antt =====
-- water_plc.h: `waterToPlc`, a pass of the water books.
use opta_gateway_mt.Base.{
  sub32, ltb, leb, ◌%◌, ◌==◌, ◌+◌, inc32, not, ◌||◌, ◌&&◌, Bool, if◌then◌else◌, Option, none, some,
  false, true, ℕ,
}
use opta_gateway_mt.Base.Floats.{Floats}
use opta_gateway_mt.Water.FlowMeter.{commit_ready, commit_done}
use opta_gateway_mt.Water.{
  real, bool, told, commit_rejected, write_fail, Water, Pass, is_some, or_default, prod_flowrate,
  prod_watervolume, cumul_watervol, cumul_vol_reset, display_watervol, trip_watervol, trip_mark,
  trip_reset, hist_tags, tell_water, beat_write, write_zeros, water_on_reset, sane_vol,
  water_vol_wrap, trip_from_mark, hmi_update_due, push_hist, trip_hist_n, zero_value,
}

abbrev pub flow_plc_write_ms : ℕ
flow_plc_write_ms = 5000

abbrev pub flow_plc_retry_ms : ℕ
flow_plc_retry_ms = 60000

module _ (fl : Floats) where
  -- The HMI's reset of the lifetime total.
  unfoldable pub hmi_reset : Pass fl.F → Water fl.F → Water fl.F
  hmi_reset p w =
      let r = water_on_reset fl p w in
      let a = beat_write p cumul_vol_reset (bool false) r.0 in
      if or_default false p.cumul_vol_reset_is
      then (if r.1
          then tell_water (told "cumulative total reset (HMI)") a.0
          else tell_water (told "HMI reset: PLC write failed, retry") r.0)
      else w

  abbrev pub trip_probe : Pass fl.F → Water fl.F → Bool
  trip_probe p w =
      w.trip_ever_ok || w.trip_last_try == 0 || leb flow_plc_retry_ms (sub32 p.now w.trip_last_try)

  -- The writes of a trip reset.
  unfoldable pub zero_trip : Pass fl.F → fl.F → Water fl.F → Water fl.F
  zero_trip p cur w =
      let a = (beat_write p trip_mark (real cur) w).0 in
      let b = (beat_write p trip_watervol (zero_value fl) a).0 in
      let c = (write_zeros fl p hist_tags b).0 in
      let d = (beat_write p trip_reset (bool false) c).0 in tell_water (told "trip counter reset") d

  unfoldable pub reset_trip : Pass fl.F → Bool → Water fl.F → Water fl.F
  reset_trip p probe w =
      if probe && or_default false p.trip_reset_is && sane_vol fl p.cum_at_trip
      then zero_trip p (or_default (fl.lit 0 1) p.cum_at_trip) w
      else w

  -- A base that went backwards is replaced by the last good one. The results are the base to build
  -- on, if there is one, and whether the HMI has to be written.
  unfoldable pub restore : Pass fl.F → Water fl.F → Water fl.F × Option fl.F × Bool
  restore p w =
      let base = or_default (fl.lit 0 1) p.base in
      let w1 : Water fl.F =
        tell_water (told "PLC total reinitialised - restored by gateway")
          (record w { restores = inc32 w.restores }) in
      let a = beat_write p cumul_watervol (real w.last_good_cum) w1 in
      if not (sane_vol fl p.base)
      then (w, none, false)
      else if w.last_good_valid && fl.lt base (fl.sub w.last_good_cum (fl.lit 1 2))
      then (if a.1 then (a.0, some w.last_good_cum, true) else (a.0, none, false))
      else (w, some base, false)

  -- A finished discharge goes into the total; the results are the new base and what is still owed.
  unfoldable pub commit : Pass fl.F → fl.F → Water fl.F → Water fl.F × fl.F × fl.F
  commit p base w =
      let pend = w.meter.uncommitted in
      let new_cum = water_vol_wrap fl (fl.add base pend) in
      let a = beat_write p cumul_watervol (real new_cum) w in
      if not (commit_ready fl w.meter)
      then (w, base, pend)
      else if a.1
      then (record (a.0) { meter = commit_done fl pend w.meter }, new_cum, fl.lit 0 1)
      else (tell_water (commit_rejected (fl.trunc (fl.mul pend (fl.lit 1000 1)))) a.0, base, pend)

  -- The HMI's figures; `trip` is the trip, if its mark was readable.
  unfoldable pub write_trip :
      Pass fl.F → Bool → Bool → Option fl.F → Water fl.F × Bool → Water fl.F × Bool
  write_trip p hourly first none (w, ok) = (w, ok)
  write_trip p hourly first (some trip) (w, ok) =
      let a = beat_write p trip_watervol (real trip) w in
      let b = if a.1 then a.0 else tell_water (write_fail trip_watervol) a.0 in
      let c = push_hist fl p trip trip_hist_n b in
      if hourly && not first then (c.0, ok && a.1 && c.1) else (b, ok && a.1)

  unfoldable pub write_hmi : Pass fl.F → Bool → Bool → fl.F → Option fl.F → Water fl.F → Water fl.F
  write_hmi p hourly first cum trip w =
      let w1 : Water fl.F = record w { hmi_write_count = inc32 w.hmi_write_count } in
      let a = beat_write p display_watervol (real cum) w1 in
      let b = if a.1 then a.0 else tell_water (write_fail display_watervol) a.0 in
      let c = write_trip p hourly first trip (b, a.1) in record (c.0) { hmi_write_ok = c.1 }

  -- The live figures, and the reference for the next pass; `cum` is the total with what is owed.
  unfoldable pub live_figures : Pass fl.F → Bool → fl.F → fl.F → Water fl.F → Water fl.F
  live_figures p probe base cum w =
      let ok_mark = probe && sane_vol fl p.mark in
      record w {
        last_good_cum = base;
        last_good_valid = true;
        live_cum = cum;
        trip_ever_ok = w.trip_ever_ok || probe && is_some p.mark;
        live_trip_valid = ok_mark;
        live_trip =
            if ok_mark then trip_from_mark fl cum (or_default (fl.lit 0 1) p.mark) else w.live_trip;
      }

  -- The HMI's figures, when the hour or a restore asks for them.
  unfoldable pub hmi_figures : Pass fl.F → Bool → fl.F → Water fl.F → Water fl.F
  hmi_figures p force cum w =
      let d = hmi_update_due fl p w in
      let trip = if w.live_trip_valid then some w.live_trip else none in
      if d.1 || force then write_hmi p d.1 d.2 cum trip d.0 else d.0

  unfoldable pub show : Pass fl.F → Bool → Bool → fl.F × fl.F → Water fl.F → Water fl.F
  show p probe force (base, pend) w =
      let cum = water_vol_wrap fl (fl.add base pend) in
      hmi_figures p force cum (live_figures p probe base cum w)

  unfoldable pub totals : Pass fl.F → Bool → Bool → Option fl.F → Water fl.F → Water fl.F
  totals p probe force none w = w
  totals p probe force (some base) w = let c = commit p base w in show p probe force (c.1, c.2) c.0

  -- The back-off of the core writes.
  unfoldable pub settle_core : Bool → Bool → Water fl.F → Water fl.F
  settle_core ok_core all w =
      let fails = (w.core_fails + 1) % 256 in
      let w1 : Water fl.F =
        if ok_core
        then record w { ever_ok = true; core_fails = 0 }
        else if leb 3 fails
        then record w { ever_ok = false; core_fails = 0 }
        else record w { core_fails = fails } in
      record w1 {
        flow_write_ok = all;
        meter = record (w1.meter) { water_owed = w1.meter.uncommitted };
      }

  -- Rate and volume of this discharge.
  unfoldable pub core_writes : Pass fl.F → Water fl.F → Water fl.F × Bool
  core_writes p w =
      let d = beat_write p prod_flowrate (real w.meter.flow_rate) w in
      let e = beat_write p prod_watervolume (real w.meter.flow_batch) d.0 in (e.0, d.1 && e.1)

  -- From the trip reset to the totals; the flags are `okRate && okVol` and `okTotals`.
  unfoldable pub after_reset : Pass fl.F → Water fl.F → Water fl.F × Bool × Bool
  after_reset p w =
      let probe = trip_probe p w in
      let b : Water fl.F = if probe then record w { trip_last_try = p.now } else w in
      let d = core_writes p (reset_trip p probe b) in
      let r = restore p d.0 in (totals p probe r.2 r.1 r.0, d.1, is_some r.1)

  -- The pass, once it is due.
  unfoldable pub pass_now : Pass fl.F → Water fl.F → Water fl.F
  pass_now p w =
      let t = after_reset p (hmi_reset p (record w { last_write = p.now })) in
      settle_core t.1 (t.1 && t.2) t.0

  -- `waterToPlc`.
  unfoldable pub water_to_plc : Pass fl.F → Water fl.F → Water fl.F
  water_to_plc p w =
      let interval = if w.ever_ok then flow_plc_write_ms else flow_plc_retry_ms in
      if not (w.last_write == 0) && ltb (sub32 p.now w.last_write) interval then w else pass_now p w
