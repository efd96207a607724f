-- ===== src/Manual/Sound.antt =====
-- plc_thread.h: what the gateway may write to the outputs of a manual drain.
use opta_gateway_mt.Base.{
  ap, subst, append_assoc, inr, not, append-nil, inl, arith, sym, ◌==◌, ◌∙◌, Bool-cases, false,
  true, true, ◌&&◌, ◌++◌, ◌||◌, ◌≡◌, if◌then◌else◌, ◌∷◌, List, Bool, refl, [], ℕ,
}
use opta_gateway_mt.Base.Floats.{Floats}
use opta_gateway_mt.Shared.{PlcSnapshot}
use opta_gateway_mt.Manual.{
  String, Out, s4, pump, s5, OutWrite, Manual, Takes, man_tell, man_pump_write, reads_open,
  pump_is_on, man_valve, man_pump,
}

module _ (fl : Floats) where
  -- One write in the state `m` on what was read, while the pump may be on if `runs`.
  abbrev pub IsSound : PlcSnapshot fl.F → Manual → Bool → Out → Bool → Type 0
  IsSound w m runs pump true =
      (w.action_word ≡ 0) × (reads_open fl w s4 ≡ true) × (reads_open fl w s5 ≡ true)
  IsSound w m runs pump false = m.own pump || (m.own s4 || m.own s5) && reads_open fl w pump ≡ true
  IsSound w m runs s4 true = w.action_word ≡ 0
  IsSound w m runs s4 false = (m.own s4 ≡ true) × (runs ≡ false)
  IsSound w m runs s5 true = w.action_word ≡ 0
  IsSound w m runs s5 false = (m.own s5 ≡ true) × (runs ≡ false)

  -- Whether the pump may be on after a write.
  abbrev pub still_runs : Bool → OutWrite → Bool
  still_runs runs x = elim x.out [ s4 ↦ runs | pump ↦ if x.taken then x.on else runs | s5 ↦ runs ]

  abbrev pub AllSound : PlcSnapshot fl.F → Manual → Bool → List OutWrite → Type 0
  AllSound w m runs [] = Unit
  AllSound w m runs (x ∷ xs) = IsSound w m runs x.out x.on × AllSound w m (still_runs runs x) xs

  -- What an operation on `m` has written.
  pub record Writes (w : PlcSnapshot fl.F) (m : Manual) (m1 : Manual) : Type 0 where
    pub new : List OutWrite
    pub logged : m1.writes ≡ m.writes ++ new
    pub sound : AllSound w m (pump_is_on fl w m) new

  pub Writes-none : (w : PlcSnapshot fl.F) (m m1 : Manual) → m1.writes ≡ m.writes → Writes w m m1
  Writes-none w m m1 e = record { new = []; logged = e ∙ sym (append-nil m.writes); sound = tt }

  Writes-one :
      (w : PlcSnapshot fl.F) (m m1 : Manual) (x : OutWrite)
      → m1.writes ≡ m.writes ++ (x ∷ [])
      → IsSound w m (pump_is_on fl w m) x.out x.on
      → Writes w m m1
  Writes-one w m m1 x e h = record { new = x ∷ []; logged = e; sound = (h, tt) }

abbrev pub pump_write_of : Takes → Bool → OutWrite
pump_write_of plc on = record { out = pump; on = on; taken = plc pump on }

pub man_pump_write-writes :
    (plc : Takes) (now : ℕ) (on : Bool) (text : String) (arm : Bool) (m : Manual)
    → (man_pump_write plc now on text arm m).0.writes ≡ m.writes ++ (pump_write_of plc on ∷ [])
unfolding man_pump_write man_tell
man_pump_write-writes plc now true text true m = ground arith
man_pump_write-writes plc now true text false m = ground arith
man_pump_write-writes plc now false text true m = ground arith
man_pump_write-writes plc now false text false m = ground arith

man_pump_write-stopped :
    (plc : Takes) (now : ℕ) (text : String) (arm : Bool) (m : Manual)
    → (man_pump_write plc now false text arm m).1 ≡ plc pump false
unfolding man_pump_write man_tell
man_pump_write-stopped plc now text arm m = ground arith

module _ (fl : Floats) where
  pub man_pump-Writes :
      (plc : Takes) (now : ℕ) (w : PlcSnapshot fl.F) (on : Bool) (m : Manual)
      → Writes fl w m (man_pump fl plc now w on m).0
  unfolding man_pump man_tell
  man_pump-Writes plc now w true m = elim (Bool-cases (w.action_word == 0)) [
    | inl e ↦ elim (Bool-cases (not (reads_open fl w s4) || not (reads_open fl w s5))) [
      | inl f ↦ rw (e, f) (Writes-none fl w m _ refl)
      | inr f ↦
          rw (e, f)
            (Writes-one fl w m _ (pump_write_of plc true)
              (man_pump_write-writes plc now true "pump started" true m)
              (ground arith, ground arith, ground arith))
    ]
    | inr e ↦ rw e (Writes-none fl w m _ refl)
  ]
  man_pump-Writes plc now w false m = elim (Bool-cases (m.own pump)) [
    | inl e ↦ rw e (
        Writes-one fl w m _ (pump_write_of plc false)
          (man_pump_write-writes plc now false "pump stopped" true m) (ground arith))
    | inr e ↦ rw e (Writes-none fl w m _ refl)
  ]

  -- A close stops the pump first: what is written when it does.
  close_running :
      (w : PlcSnapshot fl.F) (m m1 : Manual) (x y : OutWrite)
      → m1.writes ≡ (m.writes ++ (x ∷ [])) ++ (y ∷ [])
      → IsSound fl w m (pump_is_on fl w m) x.out x.on
      → IsSound fl w m (still_runs fl (pump_is_on fl w m) x) y.out y.on
      → Writes fl w m m1
  close_running w m m1 x y e h g = record {
    new = x ∷ y ∷ [];
    logged = e ∙ append_assoc m.writes (x ∷ []) (y ∷ []);
    sound = (h, (g, tt));
  }

  pub man_valve-true :
      (plc : Takes) (now : ℕ) (w : PlcSnapshot fl.F) (o : Out) (m : Manual)
      → (w.action_word ≡ 0 → IsSound fl w m (pump_is_on fl w m) o true)
      → Writes fl w m (man_valve fl plc now w o true m).0
  unfolding man_valve man_tell
  man_valve-true plc now w o m h = elim (Bool-cases (w.action_word == 0)) [
    | inl e ↦
        let x : OutWrite = record { out = o; on = true; taken = plc o true } in
        elim (Bool-cases (plc o true)) [
          | inl t ↦ rw (e, t) (Writes-one fl w m _ x (rw t refl) (h (ground arith)))
          | inr t ↦ rw (e, t) (Writes-one fl w m _ x (rw t refl) (h (ground arith)))
        ]
    | inr e ↦ rw e (Writes-none fl w m _ refl)
  ]

  pub man_valve-false :
      (plc : Takes) (now : ℕ) (w : PlcSnapshot fl.F) (o : Out) (m : Manual)
      → (m.own o ≡ true → (m.own s4 || m.own s5 ≡ true) × IsSound fl w m false o false)
      → Writes fl w m (man_valve fl plc now w o false m).0
  unfolding man_valve man_tell
  man_valve-false plc now w o m h = elim (Bool-cases (m.own o)) [
    | inl e ↦ elim (Bool-cases (pump_is_on fl w m)) [
      | inl r ↦
          let stopped = man_pump_write-stopped plc now "pump stopped" true m in
          let stop = man_pump_write-writes plc now false "pump stopped" true m in
          let stop_sound : m.own pump || (m.own s4 || m.own s5) && reads_open fl w pump ≡ true =
            ground (arith, (h e).0) in
          elim (Bool-cases (plc pump false)) [
            | inl t ↦
                let y : Bool → OutWrite = λ b. record { out = o; on = false; taken = b } in
                let quiet = subst (λ b. IsSound fl w m b o false) (rw t refl) (h e).1 in
                elim (Bool-cases (plc o false)) [
                  | inl u ↦
                      rw (e, r, stopped, t, u)
                        (close_running w m _ (pump_write_of plc false) (y true)
                          (ap (λ l. l ++ (y true ∷ [])) stop) stop_sound quiet)
                  | inr u ↦
                      rw (e, r, stopped, t, u)
                        (close_running w m _ (pump_write_of plc false) (y false)
                          (ap (λ l. l ++ (y false ∷ [])) stop) stop_sound quiet)
                ]
            | inr t ↦
                rw (e, r, stopped, t)
                  (Writes-one fl w m _ (pump_write_of plc false) stop stop_sound)
          ]
      | inr r ↦
          let y : OutWrite = record { out = o; on = false; taken = plc o false } in
          let quiet = subst (λ b. IsSound fl w m b o false) (sym r) (h e).1 in
          elim (Bool-cases (plc o false)) [
            | inl u ↦ rw (e, r, u) (Writes-one fl w m _ y (rw u refl) quiet)
            | inr u ↦ rw (e, r, u) (Writes-one fl w m _ y (rw u refl) quiet)
          ]
    ]
    | inr e ↦ rw e (Writes-none fl w m _ refl)
  ]
