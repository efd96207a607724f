-- ===== src/Replay/Lines.antt =====
-- influx_replay.h: a record as lines of InfluxDB's line protocol, and a POST body of several. Texts
-- are bytes; the name of the thing, the build's `INFLUX_THING_NAME`, is a parameter.
use opta_gateway_mt.Base.{
  inc32, ◌%◌, take, ◌/◌, ◌-◌, none, [], ◌+◌, ◌||◌, length, leb, some, true, ltb, ◌∷◌, Option, List,
  Bool, if◌then◌else◌, ◌++◌, ℕ, suc,
}
use opta_gateway_mt.Base.Decimal.{decimal}
use opta_gateway_mt.Base.Floats.{Floats}
use opta_gateway_mt.Base.Texts.{bytes_of}
use opta_gateway_mt.Replay.{Rec, is_plausible}

abbrev pub Text : Type 0
Text = List ℕ

-- "%03lu"
abbrev pub three_digits : ℕ → Text
three_digits n =
    if ltb n 1000 then (48 + n / 100) ∷ (48 + n / 10 % 10) ∷ (48 + n % 10) ∷ [] else decimal n

abbrev pub then_add : Option Text → (Text → Option Text) → Option Text
then_add none next = none
then_add (some out) next = next out

-- A record that does not fit ends the body; one that does is counted.
abbrev pub and_rest : Text → (Text → Text × ℕ) → Option Text → Text × ℕ
and_rest out rest none = (out, 0)
and_rest out rest (some o) = ((rest o).0, suc (rest o).1)

abbrev pub sensor_var : List Text
sensor_var =
    bytes_of "t1HotTank"
    ∷ bytes_of "t2ColdTank"
    ∷ bytes_of "t3TopChIn"
    ∷ bytes_of "t4TopChOut"
    ∷ bytes_of "t5BotChIn"
    ∷ bytes_of "t6BotChOut"
    ∷ bytes_of "t7HotHxIn"
    ∷ bytes_of "t8HotHxOut"
    ∷ bytes_of "t9BoosterIn"
    ∷ bytes_of "t10BoosterOut"
    ∷ bytes_of "t11CondenserOut"
    ∷ bytes_of "t12HeatPumpIn"
    ∷ bytes_of "vtVaisalaTemp"
    ∷ bytes_of "p1TopChamber"
    ∷ bytes_of "p2BotChamber"
    ∷ bytes_of "p3ChamberRedun"
    ∷ bytes_of "p4Booster"
    ∷ bytes_of "p5Collector"
    ∷ bytes_of "p6VaisalaWvp"
    ∷ bytes_of "hp1HotInlet"
    ∷ bytes_of "hp1ColdInlet"
    ∷ bytes_of "hp2HotInlet"
    ∷ bytes_of "hp2ColdInlet"
    ∷ bytes_of "atmTemp"
    ∷ bytes_of "atmRh"
    ∷ bytes_of "atmTempDs"
    ∷ bytes_of "atmRhDs"
    ∷ bytes_of "tankLevel"
    ∷ []

-- A line goes into what is left of `cap` bytes, its NUL included, or does not.
abbrev pub add_line : ℕ → Text → Text → Option Text
add_line cap line out = if ltb (length line) (cap - length out) then some (out ++ line) else none

module _ (fl : Floats) (thing : Text) where
  -- `rpFmtFloat`, into a buffer of 24 bytes.
  unfoldable pub fmt_float : fl.F → Option Text
  fmt_float f =
      let is_neg = fl.lt f (fl.lit 0 1) in
      let g = if is_neg then fl.neg f else f in
      let ip = fl.trunc g in
      let part = fl.sub g (fl.of_ℕ ip) in
      let fp = fl.trunc (fl.add (fl.mul part (fl.lit 1000 1)) (fl.lit 1 2)) in
      let carries = leb 1000 fp in
      if fl.is_nan f || fl.is_inf f
      then none
      else if fl.lt (fl.lit 1000000000 1) g
      then none
      else some (
          take 23 (
            (if is_neg then 45 ∷ [] else [])
            ++ (decimal (if carries then inc32 ip else ip)
                ++ (46 ∷ three_digits (if carries then fp - 1000 else fp)))))

  -- The text of one line: the tags, the value and the time.
  unfoldable pub line_of : Text → Text → ℕ → Text
  line_of var num epoch =
      bytes_of "arduino_iot,thing_name="
      ++ (thing
          ++ (bytes_of ",variable_name="
              ++ (var ++ (bytes_of " value=" ++ (num ++ (32 ∷ decimal epoch ++ (10 ∷ [])))))))

  -- `rpLine`: a value that has no text is passed over.
  abbrev pub add_num : ℕ → Text → Option Text → ℕ → Text → Option Text
  add_num cap var none epoch out = some out
  add_num cap var (some num) epoch out = add_line cap (line_of var num epoch) out

  -- A value of a record, if its bit is set.
  unfoldable pub add_value : ℕ → Bool → Text → fl.F → ℕ → Text → Option Text
  add_value cap is_set var val epoch out =
      if is_set then add_num cap var (fmt_float val) epoch out else some out

  -- The loop over the sensor slots, from slot `k` on.
  unfoldable pub add_sensors : ℕ → Rec fl.F → ℕ → List Text → Text → Option Text
  add_sensors cap r k [] out = some out
  add_sensors cap r k (var ∷ vars) out =
      then_add (add_value cap (r.ok k) var (r.v k) r.epoch out) (add_sensors cap r (suc k) vars)

  -- One record behind what the body holds, or nothing if it does not fit.
  unfoldable pub add_record : ℕ → Rec fl.F → Text → Option Text
  add_record cap r out = then_add (add_sensors cap r 0 sensor_var out) (λ o1.
      then_add (add_value cap true (bytes_of "flowRate") r.flow_rate r.epoch o1) (λ o2.
        then_add (add_value cap true (bytes_of "flowBatch") r.flow_batch r.epoch o2) (λ o3.
          then_add (add_value cap r.cum_ok (bytes_of "displayWaterVolume") r.cum r.epoch o3) (λ o4.
            add_line cap
              (line_of (bytes_of "plcConnected") (decimal (if r.plc then 1 else 0)) r.epoch) o4))))

  -- A record whose time cannot be right is used up without a line.
  unfoldable pub add_plausible : ℕ → Rec fl.F → Text → Option Text
  add_plausible cap r out = if is_plausible r.epoch then add_record cap r out else some out

  -- `rpBuildBatch`, on the records that it is given: the body, and how many it consumed.
  unfoldable pub build_batch : ℕ → List (Rec fl.F) → Text → Text × ℕ
  build_batch cap [] out = (out, 0)
  build_batch cap (r ∷ rs) out = and_rest out (build_batch cap rs) (add_plausible cap r out)
