-- ===== src/Water/FlowMeter.antt =====
-- flow_meter.h: rate, totals and batches from the pulse count.
use opta_gateway_mt.Base.{leb, ltb, ◌&&◌, if◌then◌else◌, Bool, sub32, ℕ, false, true}
use opta_gateway_mt.Base.Floats.{Floats}

abbrev pub batch_idle_ms : ℕ
batch_idle_ms = 30000

-- The statics, `flowTick`'s own too, and the fields that it leaves in the snapshot.
pub record Meter (F : Type 0) : Type 0 where
  pub last_count : ℕ
  pub last_ms : ℕ
  pub uncommitted : F
  pub pending_commit : Bool
  pub in_batch : Bool
  pub last_flow_ms : ℕ
  pub flow_rate : F
  pub flow_total : F
  pub flow_batch : F
  pub water_owed : F

module _ (fl : Floats) where
  -- `flowCommitReady`.
  abbrev pub commit_ready : Meter fl.F → Bool
  commit_ready m = m.pending_commit && fl.lt (fl.lit 0 1) m.uncommitted

  -- `flowCommitDone`.
  unfoldable pub commit_done : fl.F → Meter fl.F → Meter fl.F
  commit_done committed m =
      let left = fl.sub m.uncommitted committed in
      record m {
        uncommitted = if fl.lt left (fl.lit 0 1) then fl.lit 0 1 else left;
        pending_commit = false;
      }

  -- `flowReset`.
  unfoldable pub flow_reset : Meter fl.F → Meter fl.F
  flow_reset m = record m {
    flow_total = fl.lit 0 1;
    flow_batch = fl.lit 0 1;
    water_owed = fl.lit 0 1;
    uncommitted = fl.lit 0 1;
    pending_commit = false;
  }

  -- The batch, from the rate: it starts, goes on, or is over and handed to the commit.
  unfoldable pub batch_step : ℕ → fl.F → Meter fl.F → Meter fl.F
  batch_step now rate m =
      if fl.lt (fl.lit 1 5) rate
      then record m {
        flow_batch = if m.in_batch then m.flow_batch else fl.lit 0 1;
        in_batch = true;
        last_flow_ms = now;
      }
      else if m.in_batch && leb batch_idle_ms (sub32 now m.last_flow_ms)
      then record m { in_batch = false; pending_commit = true }
      else m

  -- `flowTick`.
  unfoldable pub flow_tick : ℕ → ℕ → Meter fl.F → Meter fl.F
  flow_tick pulses now m =
      let dt = sub32 now m.last_ms in
      let delta = sub32 pulses m.last_count in
      let k = fl.lit 38 1 in
      let hz = fl.div (fl.mul (fl.of_ℕ delta) (fl.lit 1000 1)) (fl.of_ℕ dt) in
      let litres = fl.div (fl.of_ℕ delta) (fl.mul k (fl.lit 60 1)) in
      let rate = fl.div hz k in
      let d : Meter fl.F = record m {
        last_count = pulses;
        last_ms = now;
        flow_rate = rate;
        flow_total = fl.add m.flow_total litres;
      } in
      let b = batch_step now rate d in
      let c : Meter fl.F =
        if b.in_batch
        then record b {
          flow_batch = fl.add b.flow_batch litres;
          uncommitted = fl.add b.uncommitted litres;
        }
        else b in
      if ltb dt 500 then m else record c { water_owed = c.uncommitted }
