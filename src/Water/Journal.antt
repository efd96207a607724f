-- ===== src/Water/Journal.antt =====
-- water_plc.h: the journal of the litres that are owed to the PLC's total, over a pass.
use opta_gateway_mt.Base.{
  arith, inr, inl, append_assoc, length, ap, append-nil, Bool-cases, ◌∷◌, ◌∙◌, sym, ◌⊎◌, List, ◌++◌,
  ◌≡◌, refl, [], false, true,
}
use opta_gateway_mt.Base.Floats.{Floats}
use opta_gateway_mt.Water.FlowMeter.{flow_reset}
use opta_gateway_mt.Water.{
  Tag, Value, TagWrite, Water, Pass, reset_tags, beat_write, write_zeros, water_on_reset,
  zero_value,
}

module _ {F : Type 0} where
  -- The log has grown, and the meter is as it was.
  pub record IsQuiet (w : Water F) (v : Water F) : Type 0 where
    pub new : List (TagWrite F)
    pub logged : v.writes ≡ w.writes ++ new
    pub same_meter : v.meter ≡ w.meter

  pub IsQuiet-same : (w v : Water F) → v.writes ≡ w.writes → v.meter ≡ w.meter → IsQuiet w v
  IsQuiet-same w v e m = record { new = []; logged = e ∙ sym (append-nil w.writes); same_meter = m }

  pub IsQuiet-trans : (w v u : Water F) → IsQuiet w v → IsQuiet v u → IsQuiet w u
  IsQuiet-trans w v u a b = record {
    new = a.new ++ b.new;
    logged = b.logged ∙ ap (λ l. l ++ b.new) a.logged ∙ append_assoc w.writes a.new b.new;
    same_meter = b.same_meter ∙ a.same_meter;
  }

  pub beat_write-IsQuiet :
      (p : Pass F) (t : Tag) (v : Value F) (w : Water F) → IsQuiet w (beat_write p t v w).0
  unfolding beat_write
  beat_write-IsQuiet p t v w = record { new = _; logged = refl; same_meter = refl }

module _ (fl : Floats) where
  pub write_zeros-IsQuiet :
      (p : Pass fl.F) (ts : List Tag) (w : Water fl.F) → IsQuiet w (write_zeros fl p ts w).0
  unfolding write_zeros
  write_zeros-IsQuiet p [] w = IsQuiet-same w w refl refl
  write_zeros-IsQuiet p (t ∷ ts) w =
      let a = (beat_write p t (zero_value fl) w).0 in
      IsQuiet-trans w a _ (beat_write-IsQuiet p t (zero_value fl) w) (write_zeros-IsQuiet p ts a)

  pub write_zeros-good :
      (p : Pass fl.F) (ts : List Tag) (w : Water fl.F)
      → (write_zeros fl p ts w).0.last_good_cum ≡ w.last_good_cum
  unfolding write_zeros beat_write
  write_zeros-good p [] w = refl
  write_zeros-good p (t ∷ ts) w = write_zeros-good p ts (beat_write p t (zero_value fl) w).0

  -- A taken write of zero to each tag, in order.
  abbrev pub taken_zeros : List Tag → List (TagWrite fl.F)
  taken_zeros [] = []
  taken_zeros (t ∷ ts) = record { tag = t; value = zero_value fl; taken = true } ∷ taken_zeros ts

  write_zeros-taken :
      (p : Pass fl.F) (ts : List Tag) (w : Water fl.F)
      → (write_zeros fl p ts w).1 ≡ true
      → (write_zeros fl p ts w).0.writes ≡ w.writes ++ taken_zeros ts
  unfolding write_zeros beat_write
  write_zeros-taken p [] w e = sym (append-nil w.writes)
  write_zeros-taken p (t ∷ ts) w e =
      let a = (beat_write p t (zero_value fl) w).0 in
      let taken : p.takes (length w.writes) ≡ true = ground arith in
      let more = write_zeros-taken p ts a (ground arith) in
      more
      ∙ ap
          (λ b.
            (w.writes ++ (record { tag = t; value = zero_value fl; taken = b } ∷ []))
            ++ taken_zeros ts)
          taken
      ∙ append_assoc w.writes (record { tag = t; value = zero_value fl; taken = true } ∷ [])
          (taken_zeros ts)

  -- All or nothing: the books are zeroed when all nine writes were taken, and else left alone.
  pub record IsReset (w : Water fl.F) (v : Water fl.F) : Type 0 where
    pub after : List (TagWrite fl.F)
    pub logged : v.writes ≡ w.writes ++ (taken_zeros reset_tags ++ after)
    pub zeroed : v.meter ≡ flow_reset fl w.meter

  pub water_on_reset-cases :
      (p : Pass fl.F) (w : Water fl.F)
      → (((water_on_reset fl p w).1 ≡ true) × IsReset w (water_on_reset fl p w).0)
        ⊎ (((water_on_reset fl p w).1 ≡ false)
            × IsQuiet w (water_on_reset fl p w).0
            × ((water_on_reset fl p w).0.last_good_cum ≡ w.last_good_cum))
  unfolding water_on_reset
  water_on_reset-cases p w =
      let z = write_zeros fl p reset_tags w in
      let q = write_zeros-IsQuiet p reset_tags w in
      elim (Bool-cases z.1) [
        | inl e ↦ rw e (
            inl (
              refl,
              record {
                after = [];
                logged =
                    write_zeros-taken p reset_tags w e
                    ∙ ap (λ l. w.writes ++ l) (sym (append-nil (taken_zeros reset_tags)));
                zeroed = ap (flow_reset fl) q.same_meter;
              },
            ))
        | inr e ↦ rw e (inr (refl, q, write_zeros-good p reset_tags w))
      ]
