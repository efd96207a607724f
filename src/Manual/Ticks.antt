-- ===== src/Manual/Ticks.antt =====
-- plc_thread.h, `manualTick`: the tick only ever stops a pump that the gateway owns.
use Prim.Native.String.{◌∷◌, String}
use opta_gateway_mt.Base.{
  if◌then◌else◌, ltb, is_past, subst, append_assoc, inr, sub32, ap, arith, leb, inl, ◌∷◌, ◌∙◌, ◌||◌,
  append-nil, Bool, List, ◌++◌, Bool-cases, not, sym, ◌≡◌, ◌&&◌, refl, false, true, [], ℕ,
}
use opta_gateway_mt.Base.Floats.{Floats}
use opta_gateway_mt.Shared.{PlcSnapshot}
use opta_gateway_mt.Manual.{
  verify_stale_ms, Out, s4, pump, s5, man_slot, OutWrite, Manual, Takes, put, man_tell,
  man_pump_write, man_read_on, auto_stop, man_verdict, catch_up, stop_if_shut, manual_tick,
  level_slot, pump_stop_level, pump_max_ms, catch_ups, verdicts,
}
use opta_gateway_mt.Manual.Sound.{
  AllSound, IsSound, still_runs, pump_write_of, man_pump_write-writes,
}

-- Writes that stop the pump, which the gateway owns.
abbrev pub AllStops : Bool → List OutWrite → Type 0
AllStops owned [] = Unit
AllStops owned (x ∷ xs) = (x.out ≡ pump) × (x.on ≡ false) × (owned ≡ true) × AllStops owned xs

-- The write that stops the pump, taken by the PLC.
abbrev pub stop_taken : OutWrite
stop_taken = record { out = pump; on = false; taken = true }

-- From `m` to `m1` the pump was at most stopped, and no output was taken over.
pub record Stops (m m1 : Manual) : Type 0 where
  pub new : List OutWrite
  pub logged : m1.writes ≡ m.writes ++ new
  pub stops : AllStops (m.own pump) new
  pub no_more : (o : Out) → not (m1.own o) || m.own o ≡ true

AllStops-append :
    (a b : Bool) (xs ys : List OutWrite)
    → not b || a ≡ true
    → AllStops a xs
    → AllStops b ys
    → AllStops a (xs ++ ys)
AllStops-append a b [] [] h s t = tt
AllStops-append a b [] (y ∷ ys) h s t =
    (t.0, t.1, ground (arith, t.2), AllStops-append a b [] ys h s t.3)
AllStops-append a b (x ∷ xs) ys h s t = (s.0, s.1, s.2, AllStops-append a b xs ys h s.3 t)

Stops-trans : (m m1 m2 : Manual) → Stops m m1 → Stops m1 m2 → Stops m m2
Stops-trans m m1 m2 v w = record {
  new = v.new ++ w.new;
  logged = w.logged ∙ ap (λ l. l ++ w.new) v.logged ∙ append_assoc m.writes v.new w.new;
  stops = AllStops-append (m.own pump) (m1.own pump) v.new w.new (v.no_more pump) v.stops w.stops;
  no_more = λ o. ground (arith, v.no_more o, w.no_more o);
}

Stops-refl : (m : Manual) → Stops m m
Stops-refl m = record {
  new = [];
  logged = sym (append-nil m.writes);
  stops = tt;
  no_more = λ o. ground arith;
}

quiet_Stops :
    (m m1 : Manual)
    → m1.writes ≡ m.writes
    → ((o : Out) → not (m1.own o) || m.own o ≡ true)
    → Stops m m1
quiet_Stops m m1 e h = record {
  new = [];
  logged = e ∙ sym (append-nil m.writes);
  stops = tt;
  no_more = h;
}

put-false : (o p : Out) (f : Out → Bool) → not (put o false f p) || f p ≡ true
put-false s4 s4 f = refl
put-false s4 pump f = ground arith
put-false s4 s5 f = ground arith
put-false pump s4 f = ground arith
put-false pump pump f = refl
put-false pump s5 f = ground arith
put-false s5 s4 f = ground arith
put-false s5 pump f = ground arith
put-false s5 s5 f = refl

keeps_own : (p : Out) (f : Out → Bool) → not (f p) || f p ≡ true
keeps_own p f = ground arith

man_pump_write-own :
    (plc : Takes) (now : ℕ) (text : String) (m : Manual) (p : Out)
    → not ((man_pump_write plc now false text false m).0.own p) || m.own p ≡ true
unfolding man_pump_write man_tell
man_pump_write-own plc now text m p = elim (Bool-cases (plc pump false)) [
  | inl e ↦ rw e (put-false pump p m.own)
  | inr e ↦ rw e (keeps_own p m.own)
]

stop-Stops :
    (plc : Takes) (now : ℕ) (text : String) (m : Manual)
    → m.own pump ≡ true
    → Stops m (man_pump_write plc now false text false m).0
stop-Stops plc now text m e = record {
  new = pump_write_of plc false ∷ [];
  logged = man_pump_write-writes plc now false text false m;
  stops = (refl, refl, e, tt);
  no_more = man_pump_write-own plc now text m;
}

module _ (fl : Floats) where
  auto_stop-Stops :
      (plc : Takes) (now : ℕ) (w : PlcSnapshot fl.F) (m : Manual)
      → Stops m (auto_stop fl plc now w m)
  unfolding auto_stop
  auto_stop-Stops plc now w m =
      let low = w.ok level_slot && fl.lt (w.sensor level_slot) (fl.lit pump_stop_level 1) in
      let late = leb pump_max_ms (sub32 now m.pump_on_ms) in
      elim (Bool-cases (m.own pump && (low || late))) [
        | inl e ↦ rw e (stop-Stops plc now _ m (ground arith))
        | inr e ↦ rw e (Stops-refl m)
      ]

  stop_if_shut-Stops :
      (plc : Takes) (now : ℕ) (w : PlcSnapshot fl.F) (o : Out) (m : Manual)
      → Stops m (stop_if_shut fl plc now w o m)
  unfolding stop_if_shut
  stop_if_shut-Stops plc now w o m =
      elim (Bool-cases (
        m.own pump
        && not (m.check o).armed
        && w.valve_ok (man_slot o)
        && not (man_read_on fl w o))) [
          | inl e ↦ rw e (stop-Stops plc now _ m (ground arith))
          | inr e ↦ rw e (Stops-refl m)
        ]

  catch_up-Stops : (w : PlcSnapshot fl.F) (o : Out) (m : Manual) → Stops m (catch_up fl w o m)
  unfolding catch_up
  catch_up-Stops w o m =
      elim (Bool-cases
        (m.own o && not (m.check o).armed && w.valve_ok (man_slot o) && not (man_read_on fl w o))) [
          | inl e ↦ rw e (quiet_Stops m _ refl (λ p. put-false o p m.own))
          | inr e ↦ rw e (Stops-refl m)
        ]

  man_verdict-Stops :
      (now sweep : ℕ) (w : PlcSnapshot fl.F) (o : Out) (m : Manual)
      → Stops m (man_verdict fl now sweep w o m)
  unfolding man_verdict man_tell
  man_verdict-Stops now sweep w o m =
      let c = m.check o in
      elim (Bool-cases (not c.armed || not (is_past sweep c.due_ms))) [
        | inl e ↦ rw e (Stops-refl m)
        | inr e ↦
            elim (Bool-cases (
              is_past now c.due_ms && ltb verify_stale_ms (sub32 now c.due_ms)
              || not (w.valve_ok (man_slot o)))) [
                | inl f ↦ rw (e, f) (quiet_Stops m _ refl (λ p. keeps_own p m.own))
                | inr f ↦
                    elim (Bool-cases
                      (if c.expect then man_read_on fl w o else not (man_read_on fl w o))) [
                        | inl g ↦ rw (e, f, g) (quiet_Stops m _ refl (λ p. keeps_own p m.own))
                        | inr g ↦ rw (e, f, g) (quiet_Stops m _ refl (λ p. put-false o p m.own))
                      ]
              ]
      ]

  -- What follows the auto-stop in a tick.
  abbrev rest_of_tick : Takes → ℕ → ℕ → PlcSnapshot fl.F → Manual → Manual
  rest_of_tick plc now sweep w m =
      stop_if_shut fl plc now w s5
        (stop_if_shut fl plc now w s4 (catch_ups fl w (verdicts fl now sweep w m)))

  rest_of_tick-Stops :
      (plc : Takes) (now sweep : ℕ) (w : PlcSnapshot fl.F) (m : Manual)
      → Stops m (rest_of_tick plc now sweep w m)
  rest_of_tick-Stops plc now sweep w m =
      let v1 = man_verdict fl now sweep w s4 m in
      let v2 = man_verdict fl now sweep w pump v1 in
      let v3 = man_verdict fl now sweep w s5 v2 in
      let c1 = catch_up fl w s4 v3 in
      let c2 = catch_up fl w pump c1 in
      let c3 = catch_up fl w s5 c2 in
      let d1 = stop_if_shut fl plc now w s4 c3 in
      Stops-trans m v1 _ (man_verdict-Stops now sweep w s4 m) (
        Stops-trans v1 v2 _ (man_verdict-Stops now sweep w pump v1) (
          Stops-trans v2 v3 _ (man_verdict-Stops now sweep w s5 v2) (
            Stops-trans v3 c1 _ (catch_up-Stops w s4 v3) (
              Stops-trans c1 c2 _ (catch_up-Stops w pump c1) (
                Stops-trans c2 c3 _ (catch_up-Stops w s5 c2) (
                  Stops-trans c3 d1 _ (stop_if_shut-Stops plc now w s4 c3)
                    (stop_if_shut-Stops plc now w s5 d1)))))))

  pub manual_tick-Stops :
      (plc : Takes) (now sweep : ℕ) (w : PlcSnapshot fl.F) (m : Manual)
      → Stops m (manual_tick fl plc now sweep w m)
  unfolding manual_tick
  manual_tick-Stops plc now sweep w m =
      Stops-trans m (auto_stop fl plc now w m) _ (auto_stop-Stops plc now w m)
        (rest_of_tick-Stops plc now sweep w (auto_stop fl plc now w m))

  pub AllStops-AllSound :
      (w : PlcSnapshot fl.F) (m : Manual) (runs : Bool) (xs : List OutWrite)
      → AllStops (m.own pump) xs
      → AllSound fl w m runs xs
  AllStops-AllSound w m runs [] h = tt
  AllStops-AllSound w m runs (x ∷ xs) h = (
    subst (λ o. IsSound fl w m runs o x.on) (sym h.0)
        (subst (λ b. IsSound fl w m runs pump b) (sym h.1) (ground (arith, h.2))),
    AllStops-AllSound w m (still_runs fl runs x) xs h.3,
  )

  auto_stop-writes :
      (plc : Takes) (now : ℕ) (w : PlcSnapshot fl.F) (m : Manual)
      → plc pump false ≡ true
      → w.ok level_slot && fl.lt (w.sensor level_slot) (fl.lit pump_stop_level 1)
          || leb pump_max_ms (sub32 now m.pump_on_ms)
        ≡ true
      → ((auto_stop fl plc now w m).own pump ≡ false)
        × ((auto_stop fl plc now w m).writes
            ≡ m.writes ++ (if m.own pump then stop_taken ∷ [] else []))
  unfolding auto_stop man_pump_write man_tell
  auto_stop-writes plc now w m takes due = elim (Bool-cases (m.own pump)) [
    | inl e ↦ (ground arith, rw (e, due, takes) refl)
    | inr e ↦ (ground arith, rw e (sym (append-nil m.writes)))
  ]

  AllStops-none : (xs : List OutWrite) → AllStops false xs → xs ≡ []
  AllStops-none [] h = refl
  AllStops-none (x ∷ xs) h = absurd (ground (arith, h.2))

  -- When the level reads below 18 or three minutes have passed, a tick whose stop the PLC takes ends
  -- with the pump not owned. If the gateway owned it, exactly one write was sent, the one that turns
  -- the pump off, and it was taken; if not, the tick sends none.
  pub manual_tick-stops :
      (plc : Takes) (now sweep : ℕ) (w : PlcSnapshot fl.F) (m : Manual)
      → plc pump false ≡ true
      → w.ok level_slot && fl.lt (w.sensor level_slot) (fl.lit pump_stop_level 1)
          || leb pump_max_ms (sub32 now m.pump_on_ms)
        ≡ true
      → let m1 = manual_tick fl plc now sweep w m in
        (m1.own pump ≡ false)
        × (m1.writes ≡ m.writes ++ (if m.own pump then stop_taken ∷ [] else []))
  unfolding manual_tick
  manual_tick-stops plc now sweep w m takes due =
      let a = auto_stop fl plc now w m in
      let head = auto_stop-writes plc now w m takes due in
      let rest = rest_of_tick-Stops plc now sweep w a in
      let none_new = AllStops-none rest.new (subst (λ b. AllStops b rest.new) head.0 rest.stops) in
      (
        ground (arith, head.0, rest.no_more pump),
        rest.logged ∙ ap (λ l. a.writes ++ l) none_new ∙ append-nil a.writes ∙ head.1,
      )
