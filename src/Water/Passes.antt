-- ===== src/Water/Passes.antt =====
-- water_plc.h, `waterToPlc`: a litre leaves the journal only when the PLC has it.
use opta_gateway_mt.Base.{
  subst, sym, ◌∷◌, ◌≡◌, length, ◌||◌, List, not, arith, inc32, Option, ◌-◌, inr, append_assoc, ◌==◌,
  ◌&&◌, inl, ap, ◌∙◌, Bool-cases, if◌then◌else◌, ◌++◌, ◌⊎◌, Bool, refl, none, some, [], false, true,
  ℕ, zero, suc,
}
use opta_gateway_mt.Base.Floats.{Floats}
use opta_gateway_mt.Water.FlowMeter.{Meter, commit_ready, commit_done}
use opta_gateway_mt.Water.{
  real, bool, Told, told, write_fail, TagWrite, Water, Pass, or_default, cumul_watervol,
  cumul_vol_reset, trip_mark, trip_watervol, trip_reset, trip_hist, display_watervol, hist_tags,
  reset_tags, tell_water, beat_write, write_zeros, water_on_reset, sane_vol, water_vol_wrap,
  zero_value, hmi_update_due, push_hist, trip_hist_n,
}
use opta_gateway_mt.Water.Books.{
  hmi_reset, reset_trip, zero_trip, restore, commit, write_trip, write_hmi, show, live_figures,
  hmi_figures,
}
use opta_gateway_mt.Water.Journal.{
  IsQuiet, IsQuiet-same, IsQuiet-trans, beat_write-IsQuiet, write_zeros-IsQuiet, write_zeros-good,
  taken_zeros, IsReset, water_on_reset-cases,
}

module _ (fl : Floats) where
  pub IsReset-quiet : (w v u : Water fl.F) → IsReset fl w v → IsQuiet v u → IsReset fl w u
  IsReset-quiet w v u a b = record {
    after = a.after ++ b.new;
    logged =
        b.logged
        ∙ ap (λ l. l ++ b.new) a.logged
        ∙ append_assoc w.writes (taken_zeros fl reset_tags ++ a.after) b.new
        ∙ ap (λ l. w.writes ++ l) (append_assoc (taken_zeros fl reset_tags) a.after b.new);
    zeroed = b.same_meter ∙ a.zeroed;
  }

  pub hmi_reset-cases :
      (p : Pass fl.F) (w : Water fl.F)
      → IsReset fl w (hmi_reset fl p w)
        ⊎ (IsQuiet w (hmi_reset fl p w) × ((hmi_reset fl p w).last_good_cum ≡ w.last_good_cum))
  unfolding hmi_reset
  hmi_reset-cases p w = elim (Bool-cases (or_default false p.cumul_vol_reset_is)) [
    | inl e ↦ elim (water_on_reset-cases fl p w) [
      | inl d ↦
          rw (e, d.0)
            (inl (
              IsReset-quiet w (water_on_reset fl p w).0 _ d.1 (
                IsQuiet-trans _
                  (beat_write p cumul_vol_reset (bool false) (water_on_reset fl p w).0).0 _
                  (beat_write-IsQuiet p cumul_vol_reset (bool false) (water_on_reset fl p w).0)
                  (IsQuiet-same _ _ refl refl))))
      | inr d ↦
          rw (e, d.0)
            (inr
              (IsQuiet-trans w (water_on_reset fl p w).0 _ d.1 (IsQuiet-same _ _ refl refl), d.2))
    ]
    | inr e ↦ rw e (inr (IsQuiet-same w w refl refl, refl))
  ]

  zero_trip-IsQuiet :
      (p : Pass fl.F) (cur : fl.F) (w : Water fl.F) → IsQuiet w (zero_trip fl p cur w)
  unfolding zero_trip
  zero_trip-IsQuiet p cur w =
      let a = (beat_write p trip_mark (real cur) w).0 in
      let b = (beat_write p trip_watervol (zero_value fl) a).0 in
      let c = (write_zeros fl p hist_tags b).0 in
      let d = (beat_write p trip_reset (bool false) c).0 in
      IsQuiet-trans w a _ (beat_write-IsQuiet p trip_mark (real cur) w) (
        IsQuiet-trans a b _ (beat_write-IsQuiet p trip_watervol (zero_value fl) a) (
          IsQuiet-trans b c _ (write_zeros-IsQuiet fl p hist_tags b) (
            IsQuiet-trans c d _ (beat_write-IsQuiet p trip_reset (bool false) c)
              (IsQuiet-same d _ refl refl))))

  pub reset_trip-IsQuiet :
      (p : Pass fl.F) (probe : Bool) (w : Water fl.F) → IsQuiet w (reset_trip fl p probe w)
  unfolding reset_trip
  reset_trip-IsQuiet p probe w =
      elim (Bool-cases (probe && or_default false p.trip_reset_is && sane_vol fl p.cum_at_trip)) [
        | inl e ↦ rw e (zero_trip-IsQuiet p _ w)
        | inr e ↦ rw e (IsQuiet-same w w refl refl)
      ]

  told_if : (ok : Bool) (t : Told) (u : Water fl.F) → IsQuiet u (if ok then u else tell_water t u)
  told_if true t u = IsQuiet-same u u refl refl
  told_if false t u = IsQuiet-same u _ refl refl

  pub reset_trip-good :
      (p : Pass fl.F) (probe : Bool) (w : Water fl.F)
      → (reset_trip fl p probe w).last_good_cum ≡ w.last_good_cum
  unfolding reset_trip zero_trip beat_write
  reset_trip-good p probe w =
      elim (Bool-cases (probe && or_default false p.trip_reset_is && sane_vol fl p.cum_at_trip)) [
        | inl e ↦ rw e (write_zeros-good fl p hist_tags _)
        | inr e ↦ rw e refl
      ]

  push_hist-IsQuiet :
      (p : Pass fl.F) (reading : fl.F) (n : ℕ) (w : Water fl.F)
      → IsQuiet w (push_hist fl p reading n w).0
  unfolding push_hist
  push_hist-IsQuiet p reading zero w = IsQuiet-same w w refl refl
  push_hist-IsQuiet p reading (suc i) w =
      let v = if i == 0 then reading else or_default (fl.lit 0 1) (p.hist (i - 1)) in
      let a = beat_write p (trip_hist i) (real v) w in
      let b = if a.1 then a.0 else tell_water (write_fail (trip_hist i)) a.0 in
      IsQuiet-trans w (a.0) _ (beat_write-IsQuiet p (trip_hist i) (real v) w) (
        IsQuiet-trans (a.0) b _ (told_if a.1 (write_fail (trip_hist i)) a.0)
          (push_hist-IsQuiet p reading i b))

  hmi_update_due-IsQuiet : (p : Pass fl.F) (w : Water fl.F) → IsQuiet w (hmi_update_due fl p w).0
  unfolding hmi_update_due
  hmi_update_due-IsQuiet p w = IsQuiet-same w _ (ground arith) (ground arith)

  pub restore-IsQuiet : (p : Pass fl.F) (w : Water fl.F) → IsQuiet w (restore fl p w).0
  unfolding restore
  restore-IsQuiet p w =
      let w1 : Water fl.F =
        tell_water (told "PLC total reinitialised - restored by gateway")
          (record w { restores = inc32 w.restores }) in
      let a = beat_write p cumul_watervol (real w.last_good_cum) w1 in
      let quiet =
        IsQuiet-trans w w1 (a.0) (IsQuiet-same w w1 refl refl)
          (beat_write-IsQuiet p cumul_watervol (real w.last_good_cum) w1) in
      elim (Bool-cases (not (sane_vol fl p.base))) [
        | inl e ↦ rw e (IsQuiet-same w w refl refl)
        | inr e ↦
            elim (Bool-cases (
              w.last_good_valid
              && fl.lt (or_default (fl.lit 0 1) p.base) (fl.sub w.last_good_cum (fl.lit 1 2)))) [
                | inl f ↦ elim (Bool-cases a.1) [
                  | inl g ↦ rw (e, f, g) quiet
                  | inr g ↦ rw (e, f, g) quiet
                ]
                | inr f ↦ rw (e, f) (IsQuiet-same w w refl refl)
              ]
      ]

  write_trip-IsQuiet :
      (p : Pass fl.F) (hourly first : Bool) (trip : Option fl.F) (w : Water fl.F) (ok : Bool)
      → IsQuiet w (write_trip fl p hourly first trip (w, ok)).0
  unfolding write_trip
  write_trip-IsQuiet p hourly first none w ok = IsQuiet-same w w refl refl
  write_trip-IsQuiet p hourly first (some trip) w ok =
      let a = beat_write p trip_watervol (real trip) w in
      let b = if a.1 then a.0 else tell_water (write_fail trip_watervol) a.0 in
      let quiet =
        IsQuiet-trans w (a.0) b (beat_write-IsQuiet p trip_watervol (real trip) w)
          (told_if a.1 (write_fail trip_watervol) a.0) in
      elim (Bool-cases (hourly && not first)) [
        | inl e ↦ rw e (IsQuiet-trans w b _ quiet (push_hist-IsQuiet p trip trip_hist_n b))
        | inr e ↦ rw e quiet
      ]

  write_hmi-IsQuiet :
      (p : Pass fl.F) (hourly first : Bool) (cum : fl.F) (trip : Option fl.F) (w : Water fl.F)
      → IsQuiet w (write_hmi fl p hourly first cum trip w)
  unfolding write_hmi
  write_hmi-IsQuiet p hourly first cum trip w =
      let w1 : Water fl.F = record w { hmi_write_count = inc32 w.hmi_write_count } in
      let a = beat_write p display_watervol (real cum) w1 in
      let b = if a.1 then a.0 else tell_water (write_fail display_watervol) a.0 in
      let c = (write_trip fl p hourly first trip (b, a.1)).0 in
      IsQuiet-trans w w1 _ (IsQuiet-same w w1 refl refl) (
        IsQuiet-trans w1 (a.0) _ (beat_write-IsQuiet p display_watervol (real cum) w1) (
          IsQuiet-trans (a.0) b _ (told_if a.1 (write_fail display_watervol) a.0) (
            IsQuiet-trans b c _ (write_trip-IsQuiet p hourly first trip b a.1)
              (IsQuiet-same c _ refl refl))))

  hmi_figures-IsQuiet :
      (p : Pass fl.F) (force : Bool) (cum : fl.F) (w : Water fl.F)
      → IsQuiet w (hmi_figures fl p force cum w)
  unfolding hmi_figures
  hmi_figures-IsQuiet p force cum w =
      let d = hmi_update_due fl p w in
      let trip = if w.live_trip_valid then some w.live_trip else none in
      let quiet = hmi_update_due-IsQuiet p w in
      elim (Bool-cases (d.1 || force)) [
        | inl e ↦ rw e (IsQuiet-trans w (d.0) _ quiet (write_hmi-IsQuiet p d.1 d.2 cum trip d.0))
        | inr e ↦ rw e quiet
      ]

  pub show-IsQuiet :
      (p : Pass fl.F) (probe force : Bool) (base pend : fl.F) (w : Water fl.F)
      → IsQuiet w (show fl p probe force (base, pend) w)
  unfolding show live_figures
  show-IsQuiet p probe force base pend w =
      let cum = water_vol_wrap fl (fl.add base pend) in
      IsQuiet-trans w (live_figures fl p probe base cum w) _ (IsQuiet-same w _ refl refl)
        (hmi_figures-IsQuiet p force cum (live_figures fl p probe base cum w))

  -- The write of the total with what is owed, taken.
  abbrev pub commit_write : fl.F → Meter fl.F → TagWrite fl.F
  commit_write base m = record {
    tag = cumul_watervol;
    value = real (water_vol_wrap fl (fl.add base m.uncommitted));
    taken = true;
  }

  -- What is owed went into the total: the PLC took the sum, and the journal gave up just that.
  pub record IsCommit (base : fl.F) (w : Water fl.F) (v : Water fl.F) : Type 0 where
    pub before : List (TagWrite fl.F)
    pub after : List (TagWrite fl.F)
    pub logged : v.writes ≡ w.writes ++ (before ++ (commit_write base w.meter ∷ after))
    pub was_ready : commit_ready fl w.meter ≡ true
    pub debited : v.meter ≡ commit_done fl w.meter.uncommitted w.meter

  pub commit-cases :
      (p : Pass fl.F) (base : fl.F) (w : Water fl.F)
      → IsCommit base w (commit fl p base w).0 ⊎ IsQuiet w (commit fl p base w).0
  unfolding commit beat_write
  commit-cases p base w = elim (Bool-cases (not (commit_ready fl w.meter))) [
    | inl e ↦ rw e (inr (IsQuiet-same w w refl refl))
    | inr e ↦ elim (Bool-cases (p.takes (length w.writes))) [
      | inl f ↦
          rw (e, f)
            (inl (record {
              before = [];
              after = [];
              logged = refl;
              was_ready = ground (arith, e);
              debited = refl;
            }))
      | inr f ↦ rw (e, f) (inr (record { new = _; logged = refl; same_meter = refl }))
    ]
  ]

  pub quiet-IsCommit :
      (base : fl.F) (w v u : Water fl.F) → IsQuiet w v → IsCommit base v u → IsCommit base w u
  quiet-IsCommit base w v u a c = record {
    before = a.new ++ c.before;
    after = c.after;
    logged =
        c.logged
        ∙ ap (λ l. l ++ (c.before ++ (commit_write base v.meter ∷ c.after))) a.logged
        ∙ append_assoc w.writes a.new _
        ∙ ap (λ l. w.writes ++ l) (sym (append_assoc a.new c.before _))
        ∙ ap (λ m. w.writes ++ ((a.new ++ c.before) ++ (commit_write base m ∷ c.after)))
            a.same_meter;
    was_ready = subst (λ m. commit_ready fl m ≡ true) a.same_meter c.was_ready;
    debited = subst (λ m. u.meter ≡ commit_done fl m.uncommitted m) a.same_meter c.debited;
  }

  pub IsCommit-quiet :
      (base : fl.F) (w v u : Water fl.F) → IsCommit base w v → IsQuiet v u → IsCommit base w u
  IsCommit-quiet base w v u c b = record {
    before = c.before;
    after = c.after ++ b.new;
    logged =
        b.logged
        ∙ ap (λ l. l ++ b.new) c.logged
        ∙ append_assoc w.writes _ b.new
        ∙ ap (λ l. w.writes ++ l) (append_assoc c.before _ b.new);
    was_ready = c.was_ready;
    debited = b.same_meter ∙ c.debited;
  }
