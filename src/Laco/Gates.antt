-- ===== src/Laco/Gates.antt =====
-- laco_doors.h: what a request has to pass, and what a failed pair of writes leaves behind.
use Prim.Native.String.{String}
use opta_gateway_mt.Base.{
  if◌then◌else◌, ℕ, ◌+◌, ◌*◌, ◌≡◌, ◌⊎◌, Bool, true, false, not, arith, refl, Option, some, none, [],
  ◌∷◌, ◌++◌,
}
use opta_gateway_mt.Base.Floats.{Floats}
use opta_gateway_mt.Shared.{PlcSnapshot}
use opta_gateway_mt.Laco.{
  Laco, Plc, Write, write_side, start, start_if, gate, air_ok, comm_ok, get_job, is_busy, tell,
}

module _ (fl : Floats) where
  open fl use {F, lit, lt}

  -- What opening a chamber's doors from rest needs: no cycle, a polled link that is up, air, and a
  -- chamber pressure that was read and is not below 900 mbar.
  pub record MayOpen (w : PlcSnapshot F) (top : Bool) (l : Laco F) : Type 0 where
    pub idle : w.action_word ≡ 0
    pub polled : l.seen ≡ true
    pub linked : comm_ok fl l ≡ true
    pub air : air_ok fl l ≡ true
    pub pressure_read : w.ok (if top then 13 else 14) ≡ true
    pub vented : lt (w.sensor (if top then 13 else 14)) (lit 900 1) ≡ false

  gate-none :
      (w : PlcSnapshot F) (top : Bool) (l : Laco F) → gate fl w top true l ≡ none → MayOpen w top l
  unfolding gate
  gate-none w top l e = ground arith

  start_if-true :
      (now : ℕ) (top opening : Bool) (why : Option String) (l : Laco F)
      → (start_if fl now top opening why l).1 ≡ true
      → why ≡ none
  unfolding start_if
  start_if-true now top opening (some why) l e = cc
  start_if-true now top opening none l e = refl

  -- An accepted request to open either turns round a job of that chamber that was closing, or
  -- starts from rest with both chambers still and every condition of the gate met.
  pub start-opens :
      (now : ℕ) (w : PlcSnapshot F) (top : Bool) (l : Laco F)
      → (start fl now w top true l).1 ≡ true
      → (((get_job top l).active ≡ true) × ((get_job top l).opening ≡ false))
        ⊎ ((is_busy l ≡ false) × MayOpen w top l)
  unfolding start
  start-opens now w top l e =
      ground (arith, gate-none w top l, start_if-true now top true (gate fl w top true l) l)

abbrev pub put : ℕ → Bool → Bool → Write
put tag value taken = record { tag = tag; value = value; taken = taken }

module _ {F : Type 0} where
  -- A side's clamps and door are one request. If both writes are taken they are the only ones;
  -- if the clamps are refused nothing else is written; if the door is refused the clamps are
  -- written back.
  pub write_side-writes :
      (plc : Plc) (now side : ℕ) (opening : Bool) (l : Laco F)
      → (write_side plc now side opening l).0.writes ≡ (
          if plc (2 * side) opening
          then (if plc (2 * side + 1) opening
              then (l.writes ++ (put (2 * side) opening true ∷ []))
                ++ (put (2 * side + 1) opening true ∷ [])
              else ((l.writes ++ (put (2 * side) opening true ∷ []))
                  ++ (put (2 * side + 1) opening false ∷ []))
                ++ (put (2 * side) (not opening) (plc (2 * side) (not opening)) ∷ []))
          else l.writes ++ (put (2 * side) opening false ∷ []))
  unfolding write_side tell
  write_side-writes plc now side opening l = ground arith
