-- ===== src/Water/Kept.antt =====
-- water_plc.h, `waterToPlc`: what a pass does to the journal, whatever the PLC answers.
use opta_gateway_mt.Base.{
  sub32, ltb, ◌&&◌, ◌==◌, not, subst, ◌∙◌, if◌then◌else◌, arith, Bool-cases, inl, inr, Option, ◌⊎◌,
  Bool, ◌≡◌, refl, none, some, false, true,
}
use opta_gateway_mt.Base.Floats.{Floats}
use opta_gateway_mt.Water.FlowMeter.{commit_ready, flow_reset}
use opta_gateway_mt.Water.{
  real, Water, Pass, or_default, prod_flowrate, prod_watervolume, beat_write, sane_vol,
}
use opta_gateway_mt.Water.Books.{
  flow_plc_retry_ms, flow_plc_write_ms, after_reset, core_writes, hmi_reset, trip_probe, reset_trip,
  restore, commit, totals, settle_core, pass_now, water_to_plc,
}
use opta_gateway_mt.Water.Journal.{
  IsQuiet, IsQuiet-same, IsQuiet-trans, beat_write-IsQuiet, IsReset,
}
use opta_gateway_mt.Water.Passes.{
  reset_trip-good, IsReset-quiet, hmi_reset-cases, reset_trip-IsQuiet, restore-IsQuiet,
  show-IsQuiet, IsCommit, commit-cases, quiet-IsCommit, IsCommit-quiet,
}

module _ (fl : Floats) where
  -- The base that a pass builds on: what it read, or its own copy of the last good one.
  abbrev pub IsBase : Pass fl.F → Water fl.F → fl.F → Type 0
  IsBase p w base = (p.base ≡ some base) ⊎ (base ≡ w.last_good_cum)

  totals-cases :
      (p : Pass fl.F) (probe force : Bool) (base : Option fl.F) (w : Water fl.F)
      → ((b : fl.F) × (base ≡ some b) × IsCommit fl b w (totals fl p probe force base w))
        ⊎ IsQuiet w (totals fl p probe force base w)
  unfolding totals
  totals-cases p probe force none w = inr (IsQuiet-same w w refl refl)
  totals-cases p probe force (some b) w =
      let c = commit fl p b w in
      let s = show-IsQuiet fl p probe force c.1 c.2 c.0 in
      elim (commit-cases fl p b w) [
        | inl d ↦ inl (b, refl, IsCommit-quiet fl b w (c.0) _ d s)
        | inr q ↦ inr (IsQuiet-trans w (c.0) _ q s)
      ]

  sane-some : (o : Option fl.F) (d : fl.F) → sane_vol fl o ≡ true → o ≡ some (or_default d o)
  sane-some none d h = absurd (ground arith)
  sane-some (some v) d h = refl

  restore-IsBase :
      (p : Pass fl.F) (w : Water fl.F) (b : fl.F) → (restore fl p w).1 ≡ some b → IsBase p w b
  unfolding restore
  restore-IsBase p w b e = elim (Bool-cases (sane_vol fl p.base)) [
    | inl g ↦ ground (arith, sane-some p.base (fl.lit 0 1) g)
    | inr g ↦ absurd (ground arith)
  ]

  -- What a pass has done to the journal.
  abbrev pub IsBooked : Pass fl.F → Water fl.F → Water fl.F → Type 0
  IsBooked p w v = IsReset fl w v ⊎ (((b : fl.F) × IsBase p w b × IsCommit fl b w v) ⊎ IsQuiet w v)

  core_writes-IsQuiet :
      (p : Pass fl.F) (w : Water fl.F)
      → IsQuiet w (core_writes fl p w).0 × ((core_writes fl p w).0.last_good_cum ≡ w.last_good_cum)
  unfolding core_writes beat_write
  core_writes-IsQuiet p w =
      let d = (beat_write p prod_flowrate (real w.meter.flow_rate) w).0 in
      (
        IsQuiet-trans w d _ (beat_write-IsQuiet p prod_flowrate (real w.meter.flow_rate) w)
            (beat_write-IsQuiet p prod_watervolume (real w.meter.flow_batch) d),
        refl,
      )

  after_reset-cases :
      (p : Pass fl.F) (w : Water fl.F)
      → ((b : fl.F) × IsBase p w b × IsCommit fl b w (after_reset fl p w).0)
        ⊎ IsQuiet w (after_reset fl p w).0
  unfolding after_reset
  after_reset-cases p w =
      let probe = trip_probe fl p w in
      let b : Water fl.F = if probe then record w { trip_last_try = p.now } else w in
      let c = reset_trip fl p probe b in
      let d = (core_writes fl p c).0 in
      let r = restore fl p d in
      let noted : IsQuiet w b = IsQuiet-same w b (ground arith) (ground arith) in
      let quiet = IsQuiet-trans w b _ noted (
        IsQuiet-trans b c _ (reset_trip-IsQuiet fl p probe b)
          (IsQuiet-trans c d _ (core_writes-IsQuiet p c).0 (restore-IsQuiet fl p d))) in
      let b_good : b.last_good_cum ≡ w.last_good_cum = ground arith in
      let good : d.last_good_cum ≡ w.last_good_cum =
        (core_writes-IsQuiet p c).1 ∙ reset_trip-good fl p probe b ∙ b_good in
      elim (totals-cases p probe r.2 r.1 r.0) [
        | inl t ↦ inl (
          t.0,
          subst (λ g. (p.base ≡ some t.0) ⊎ (t.0 ≡ g)) good (restore-IsBase p d t.0 t.1),
          quiet-IsCommit fl t.0 w (r.0) _ quiet t.2,
        )
        | inr q ↦ inr (IsQuiet-trans w (r.0) _ quiet q)
      ]

  -- After a reset nothing is owed, so that nothing is committed.
  not_ready_after_reset : (w v : Water fl.F) → IsReset fl w v → commit_ready fl v.meter ≡ false
  unfolding flow_reset
  not_ready_after_reset w v a = rw a.zeroed refl

  -- The pass up to the refresh of `waterOwedL`.
  unrefreshed-IsBooked :
      (p : Pass fl.F) (w : Water fl.F)
      → IsBooked p w (after_reset fl p (hmi_reset fl p (record w { last_write = p.now }))).0
  unrefreshed-IsBooked p w =
      let w0 : Water fl.F = record w { last_write = p.now } in
      let a = hmi_reset fl p w0 in
      let rest = (after_reset fl p a).0 in
      let noted : IsQuiet w w0 = IsQuiet-same w w0 refl refl in
      elim (hmi_reset-cases fl p w0) [
        | inl z ↦
            let zw : IsReset fl w a = record {
              after = z.after;
              logged = z.logged;
              zeroed = z.zeroed;
            } in
            elim (after_reset-cases p a) [
              | inl c ↦ absurd (ground (arith, not_ready_after_reset w a zw, c.2.was_ready))
              | inr q ↦ inl (IsReset-quiet fl w a rest zw q)
            ]
        | inr z ↦
            let quiet = IsQuiet-trans w w0 a noted z.0 in
            elim (after_reset-cases p a) [
              | inl c ↦ inr (
                  inl (
                    c.0,
                    subst (λ g. (p.base ≡ some c.0) ⊎ (c.0 ≡ g)) z.1 c.1,
                    quiet-IsCommit fl c.0 w a rest quiet c.2,
                  ))
              | inr q ↦ inr (inr (IsQuiet-trans w a rest quiet q))
            ]
      ]

  -- The books of `v` are those of `t`, which a pass from `w` has left.
  pub record IsKept (p : Pass fl.F) (w : Water fl.F) (v : Water fl.F) : Type 0 where
    pub t : Water fl.F
    pub booked : IsBooked p w t
    pub same_log : v.writes ≡ t.writes
    pub same_owed : v.meter.uncommitted ≡ t.meter.uncommitted
    pub same_pending : v.meter.pending_commit ≡ t.meter.pending_commit
    pub published : (v.meter ≡ t.meter) ⊎ (v.meter.water_owed ≡ v.meter.uncommitted)

  -- Whatever the PLC answers, a pass leaves the litres that are owed as they are, or it has done one
  -- of two things. It has reset the books, and all nine writes of zero, to the totals, the mark, the
  -- trip and its history, were taken first; or the PLC took the total with the litres added to it,
  -- where the total is what the pass read, or its own last good copy, and the journal gave up just
  -- these litres.
  pub water_to_plc-IsKept : (p : Pass fl.F) (w : Water fl.F) → IsKept p w (water_to_plc fl p w)
  unfolding water_to_plc pass_now settle_core
  water_to_plc-IsKept p w =
      let interval = if w.ever_ok then flow_plc_write_ms else flow_plc_retry_ms in
      let t = after_reset fl p (hmi_reset fl p (record w { last_write = p.now })) in
      elim (Bool-cases (not (w.last_write == 0) && ltb (sub32 p.now w.last_write) interval)) [
        | inl e ↦ rw e (record {
          t = w;
          booked = inr (inr (IsQuiet-same w w refl refl));
          same_log = refl;
          same_owed = refl;
          same_pending = refl;
          published = inl refl;
        })
        | inr e ↦ rw e (record {
          t = t.0;
          booked = unrefreshed-IsBooked p w;
          same_log = ground arith;
          same_owed = ground arith;
          same_pending = ground arith;
          published = inr refl;
        })
      ]
