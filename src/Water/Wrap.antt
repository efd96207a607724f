-- ===== src/Water/Wrap.antt =====
-- water_plc.h, `waterVolWrap`: the loop ends with the reading of a meter that rolls over.
use opta_gateway_mt.Base.{
  inr, ◌∙◌, ◌-◌, ◌≤◌, inl, leb, Bool-cases, ◌/◌, arith, ◌%◌, ◌*◌, ◌<◌, ◌≡◌, false, ℕ, zero, suc,
}
use opta_gateway_mt.Base.Floats.{Floats}
use opta_gateway_mt.Water.{wrap_loop, water_vol_wrap}

-- What the loop relies on of the board's `float` for volumes whose whole litres are below `bound`
-- and its multiples of a full turn. In IEEE single precision it holds for a bound up to 2 ^ 29: as
-- far as that, 500,000 is a multiple of the last place, so that a full turn is taken off exactly.
pub record ExactTurns (fl : Floats) (bound : ℕ) : Type 0 where
  pub full : (v : fl.F) → fl.trunc v < bound → fl.le (fl.lit 500000 1) v ≡ leb 500000 (fl.trunc v)
  pub turn :
      (v : fl.F)
      → fl.trunc v < bound
      → 500000 ≤ fl.trunc v
      → fl.trunc (fl.sub v (fl.lit 500000 1)) ≡ fl.trunc v - 500000

module _ (fl : Floats) where
  -- The reading is below a full turn, so that the loop has ended by its own test.
  pub record IsWrapped (v : fl.F) (w : fl.F) : Type 0 where
    pub ended : fl.le (fl.lit 500000 1) w ≡ false
    pub litres : fl.trunc w ≡ fl.trunc v % 500000

  wrap_loop-IsWrapped :
      (bound f : ℕ) (v : fl.F)
      → ExactTurns fl bound
      → fl.trunc v < bound
      → fl.trunc v < f * 500000
      → IsWrapped v (wrap_loop fl f v)
  unfolding wrap_loop
  wrap_loop-IsWrapped bound zero v x b h = absurd (omega arith)
  wrap_loop-IsWrapped bound (suc f) v x b h = elim (Bool-cases (fl.le (fl.lit 500000 1) v)) [
    | inl e ↦
        let big : 500000 ≤ fl.trunc v = ground (arith, x.full v b) in
        let less = x.turn v b big in
        let ih =
          wrap_loop-IsWrapped bound f (fl.sub v (fl.lit 500000 1)) x (omega (arith, less))
            (omega (arith, less, big)) in
        rw e (record { ended = ih.ended; litres = ih.litres ∙ omega (arith, less, big) })
    | inr e ↦
        let small : fl.trunc v < 500000 = ground (arith, x.full v b) in
        rw e (record { ended = e; litres = omega (arith, small) })
  ]

  -- For volumes for which the `float` takes a full turn off exactly, `waterVolWrap` ends by its own
  -- test, below 500,000 litres, with the remainder of the whole litres: the rounds that the model
  -- allows are enough.
  pub water_vol_wrap-IsWrapped :
      (bound : ℕ) (v : fl.F)
      → ExactTurns fl bound
      → fl.trunc v < bound
      → IsWrapped v (water_vol_wrap fl v)
  unfolding water_vol_wrap
  water_vol_wrap-IsWrapped bound v x b =
      wrap_loop-IsWrapped bound (suc (fl.trunc v / 500000)) v x b (omega arith)
