-- ===== src/Replay/Late.antt =====
-- influx_replay.h: the step check of `rpEpochSane` against an outage that starts more than a day
-- after the last record.
use opta_gateway_mt.Base.{
  sym, if◌then◌else◌, subst, ◌==◌, some, none, [], ◌^◌, ◌≤◌, ◌∷◌, ◌+◌, Option, List, ◌∙◌, ◌≡◌,
  arith, ◌<◌, refl, ℕ,
}
use opta_gateway_mt.Base.Floats.{Floats}
use opta_gateway_mt.Shared.{PlcSnapshot}
use opta_gateway_mt.Rings.{forget}
use opta_gateway_mt.Replay.{Replay, epoch_sane, capture, drop_oldest, reject_oldest, epoch_step_max}
use opta_gateway_mt.Replay.Lines.{Text}
use opta_gateway_mt.Replay.Tick.{
  Pass, capture_from, watch, watch_down, watch_up, drain, post, settle, tick,
}

module _ (fl : Floats) (thing : Text) where
  unfoldable pub ticks : List (Pass fl.F) → Replay fl.F → Replay fl.F
  ticks [] r = r
  ticks (p ∷ ps) r = ticks ps (tick fl thing p r).0

  -- Every pass reads a clock more than a day past `e`.
  abbrev pub AllLate : ℕ → List (Pass fl.F) → Type 0
  AllLate e [] = Unit
  AllLate e (p ∷ ps) = (e + epoch_step_max < p.clock) × (p.clock < 2 ^ 32) × AllLate e ps

  -- The ring gets nothing new, and the last epoch stays.
  pub record IsStuck (r s : Replay fl.F) : Type 0 where
    pub same_epoch : s.last_epoch ≡ r.last_epoch
    pub no_more : s.ring.count ≤ r.ring.count
    pub same_slots : s.ring.slots ≡ r.ring.slots

  IsStuck-trans : (r s t : Replay fl.F) → IsStuck r s → IsStuck s t → IsStuck r t
  IsStuck-trans r s t v w = record {
    same_epoch = w.same_epoch ∙ v.same_epoch;
    no_more = omega (arith, w.no_more, v.no_more);
    same_slots = w.same_slots ∙ v.same_slots;
  }

  capture-IsStuck :
      (s : Option (PlcSnapshot fl.F)) (clock now : ℕ) (r : Replay fl.F)
      → 0 < r.last_epoch
      → r.last_epoch + epoch_step_max < clock
      → clock < 2 ^ 32
      → IsStuck r (capture_from s clock now r)
  unfolding capture epoch_sane
  capture-IsStuck none clock now r h0 h hw = record {
    same_epoch = refl;
    no_more = omega arith;
    same_slots = refl;
  }
  capture-IsStuck (some s) clock now r h0 h hw = ground arith

  watch-IsStuck :
      (p : Pass fl.F) (r : Replay fl.F)
      → 0 < r.last_epoch
      → r.last_epoch + epoch_step_max < p.clock
      → p.clock < 2 ^ 32
      → IsStuck r (watch p r)
  unfolding watch_down watch_up
  watch-IsStuck p r h0 h hw =
      let down = if r.down_since == 0 then p.now else r.down_since in
      let d : Replay fl.F = record r { cloud_up_since = 0; down_since = down } in
      ground (arith, capture-IsStuck p.snapshot p.clock p.now d h0 h hw)

  drain-IsStuck : (p : Pass fl.F) (r : Replay fl.F) → IsStuck r (drain fl thing p r).0
  unfolding drain post settle drop_oldest reject_oldest forget
  drain-IsStuck p r = ground arith

  -- Once a record has been taken, an outage that starts more than a day after it is not recorded at
  -- all, and neither is any later one: while every clock read is more than a day past the last
  -- epoch, the ring gets no record and the last epoch never changes.
  pub ticks-IsStuck :
      (ps : List (Pass fl.F)) (r : Replay fl.F)
      → 0 < r.last_epoch
      → AllLate r.last_epoch ps
      → IsStuck r (ticks ps r)
  unfolding ticks tick
  ticks-IsStuck [] r h0 h = record { same_epoch = refl; no_more = omega arith; same_slots = refl }
  ticks-IsStuck (p ∷ ps) r h0 h =
      let w = watch-IsStuck p r h0 h.0 h.1 in
      let one = IsStuck-trans r (watch p r) _ w (drain-IsStuck p (watch p r)) in
      let r1 = (tick fl thing p r).0 in
      IsStuck-trans r r1 _ one (
        ticks-IsStuck ps r1 (subst (λ e. 0 < e) (sym one.same_epoch) h0)
          (subst (λ e. AllLate e ps) (sym one.same_epoch) h.2))
