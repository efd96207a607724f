-- ===== src/FlowWatch/Verdicts.antt =====
-- flow_watch.h: a verdict needs a discharge that the meter missed, and never covers an error.
use Prim.Native.String.{String}
use opta_gateway_mt.Base.{
  inr, inl, not, is_past, Bool-cases, word, ◌<◌, inc32, sub32, add32, arith, ◌⊎◌, ◌≤◌, ◌≡◌, refl,
  false, true, ℕ,
}
use opta_gateway_mt.Base.Floats.{Floats}
use opta_gateway_mt.Shared.{PlcSnapshot}
use text.Mathlib.Text.{◌==◌ as str_eq}
use opta_gateway_mt.FlowWatch.{
  Watch, WatchState, fw_idle, fw_pumping, fw_settling, is_discharge, is_unmetered, judge, advance,
  pump_ok, remember, lay_over, flow_watch_tick, watch_settle_ms, latch_ms,
}

module _ (fl : Floats) (print : fl.F → fl.F → ℕ → String) where
  -- A mismatch was counted: the evidence for it, before and after.
  pub record IsMismatch (now : ℕ) (pulses : ℕ) (w : PlcSnapshot fl.F) (s : Watch fl.F)
      (t : Watch fl.F) : Type 0 where
    pub was_settling : s.state ≡ fw_settling
    pub settled : watch_settle_ms ≤ sub32 now s.pump_off_ms
    pub level_read : w.ok 27 ≡ true
    pub linked : pump_ok fl print w ≡ true
    pub discharged : is_discharge fl print w s ≡ true
    pub unmetered : is_unmetered fl print pulses s ≡ true
    pub counted : t.count ≡ inc32 s.count
    pub latches : t.latched ≡ true

  -- What the switch leaves: the latch's text is new only with a mismatch, and `lastError` changes
  -- only where a good discharge takes the watch's own text away.
  record IsAdvanced (now : ℕ) (pulses : ℕ) (w : PlcSnapshot fl.F) (err : String) (s : Watch fl.F)
      (a : Watch fl.F × String) : Type 0 where
    counts :
        ((a.0.count ≡ s.count) × (a.0.text ≡ s.text))
        ⊎ (IsMismatch now pulses w s a.0 × (a.0.latch_until ≡ add32 now latch_ms))
    says : (a.1 ≡ err) ⊎ ((a.0.latched ≡ false) × (str_eq err s.text ≡ true) × (a.1 ≡ "ok"))

  advance-IsAdvanced :
      (st : WatchState) (now pulses : ℕ) (w : PlcSnapshot fl.F) (err : String) (s : Watch fl.F)
      → s.state ≡ st
      → IsAdvanced now pulses w err s (advance fl print st now pulses w err s)
  unfolding advance judge
  advance-IsAdvanced fw_idle now pulses w err s e = ground arith
  advance-IsAdvanced fw_pumping now pulses w err s e = ground arith
  advance-IsAdvanced fw_settling now pulses w err s e = ground arith

  -- What a tick does to the count and to `lastError`.
  pub record IsWatched (now : ℕ) (pulses : ℕ) (w : PlcSnapshot fl.F) (err : String) (s : Watch fl.F)
      (t : Watch fl.F) (out : String) : Type 0 where
    pub counts : (t.count ≡ s.count) ⊎ IsMismatch now pulses w s t
    pub says :
        (out ≡ err)
        ⊎ (((str_eq err "ok" ≡ true) × (t.latched ≡ true) × (out ≡ t.text))
            ⊎ ((str_eq err s.text ≡ true) × (t.latched ≡ false) × (out ≡ "ok")))

  fresh_latch : (now : ℕ) → now < word → is_past now (add32 now latch_ms) ≡ false
  fresh_latch now h = ground arith

  lay_over-IsWatched :
      (now pulses : ℕ) (w : PlcSnapshot fl.F) (err : String) (s : Watch fl.F)
      (a : Watch fl.F × String)
      → now < word
      → IsAdvanced now pulses w err s a
      → IsWatched now pulses w err s
          (lay_over now (remember fl print w a.0) a.1).0
          (lay_over now (remember fl print w a.0) a.1).1
  unfolding lay_over
  lay_over-IsWatched now pulses w err s a h v = ground (arith, v.counts, v.says, fresh_latch now h)

  -- A tick counts a mismatch only at the end of a settled discharge, with the PLC there and the level
  -- read: the pump ran for ten seconds, the level fell by 8 cm, and the meter saw less than a
  -- quarter of a litre; then the verdict is latched. The text of the latch is shown only where
  -- `lastError` reads "ok", and only that text is taken back, so that an error is never covered.
  pub flow_watch_tick-IsWatched :
      (now pulses : ℕ) (w : PlcSnapshot fl.F) (err : String) (s : Watch fl.F)
      → now < word
      → let r = flow_watch_tick fl print now pulses w err s in IsWatched now pulses w err s r.0 r.1
  unfolding flow_watch_tick
  flow_watch_tick-IsWatched now pulses w err s h = elim (Bool-cases (not s.enabled)) [
    | inl e ↦ rw e (record { counts = inl refl; says = inl refl })
    | inr e ↦ rw e (
        lay_over-IsWatched now pulses w err s (advance fl print s.state now pulses w err s) h
          (advance-IsAdvanced s.state now pulses w err s refl))
  ]
