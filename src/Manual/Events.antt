-- ===== src/Manual/Events.antt =====
-- plc_thread.h: the manual outputs over any run of the PLC thread, which calls them from
-- `applyCommand` and from its loop.
use opta_gateway_mt.Base.{Bool, arith, refl, false, true, ℕ}
use opta_gateway_mt.Base.Floats.{Floats}
use opta_gateway_mt.Shared.{PlcSnapshot}
use opta_gateway_mt.Manual.{
  Out, s4, pump, s5, Manual, Takes, man_valve, man_pump, manual_tick, man_disarm,
}
use opta_gateway_mt.Manual.Sound.{
  Writes, Writes-none, man_pump-Writes, man_valve-true, man_valve-false,
}
use opta_gateway_mt.Manual.Ticks.{manual_tick-Stops, AllStops-AllSound}

-- A switch of the dashboard, a tick behind a valve sweep that started at `sweep`, or a tick without
-- the PLC; each with the clock, what was read, and which writes the PLC takes.
pub data Kind : Type 0 where
  switch : Out → Bool → Kind
  tick : ℕ → Kind
  gone : Kind

pub record Event (F : Type 0) : Type 0 where
  pub kind : Kind
  pub now : ℕ
  pub read : PlcSnapshot F
  pub plc : Takes

module _ (fl : Floats) where
  abbrev pub act : Kind → Event fl.F → Manual → Manual
  act (switch s4 on) e m = (man_valve fl e.plc e.now e.read s4 on m).0
  act (switch pump on) e m = (man_pump fl e.plc e.now e.read on m).0
  act (switch s5 on) e m = (man_valve fl e.plc e.now e.read s5 on m).0
  act (tick sweep) e m = manual_tick fl e.plc e.now sweep e.read m
  act gone e m = man_disarm m

  unfoldable pub step : Event fl.F → Manual → Manual
  step e m = act e.kind e m

  act-Writes : (k : Kind) (e : Event fl.F) (m : Manual) → Writes fl e.read m (act k e m)
  unfolding man_disarm
  act-Writes (switch s4 true) e m = man_valve-true fl e.plc e.now e.read s4 m (λ h. h)
  act-Writes (switch s4 false) e m =
      man_valve-false fl e.plc e.now e.read s4 m (λ h. (ground arith, (h, refl)))
  act-Writes (switch pump on) e m = man_pump-Writes fl e.plc e.now e.read on m
  act-Writes (switch s5 true) e m = man_valve-true fl e.plc e.now e.read s5 m (λ h. h)
  act-Writes (switch s5 false) e m =
      man_valve-false fl e.plc e.now e.read s5 m (λ h. (ground arith, (h, refl)))
  act-Writes (tick sweep) e m =
      let s = manual_tick-Stops fl e.plc e.now sweep e.read m in
      record {
        new = s.new;
        logged = s.logged;
        sound = AllStops-AllSound fl e.read m _ s.new s.stops;
      }
  act-Writes gone e m = Writes-none fl e.read m _ refl

  -- Whatever happens, each write to the three outputs is in order: a valve is opened and the pump
  -- started only while the PLC runs no action, the pump only with both valves read open; a valve is
  -- closed only if the gateway opened it, and with the pump off, read so or stopped by a write that
  -- was taken just before; the pump is stopped only if the gateway started it, or reads on when
  -- such a valve is closed.
  pub step-Writes : (e : Event fl.F) (m : Manual) → Writes fl e.read m (step e m)
  unfolding step
  step-Writes e m = act-Writes e.kind e m
