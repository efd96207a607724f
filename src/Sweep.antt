-- ===== src/Sweep.antt =====
-- plc_tags.h, plc_thread.h: the sensor tables, and `pollSensorsInto`, which reads 22 tags as REAL and
-- 6 as DINT, and scatters them into the 28 slots that everything downstream uses. What a read of a
-- tag brings, if it is answered, is an argument; `print` is the text of a failed sweep.
pub mod Slots
mod Examples
use Prim.Native.String.{◌∷◌, String}
use opta_gateway_mt.Base.{
  ◌+◌, ◌∷◌, ◌==◌, leb, if◌then◌else◌, Option, List, Bool, none, some, [], false, true, ℕ, zero, suc,
}
use opta_gateway_mt.Base.Floats.{Floats}
use opta_gateway_mt.Base.Ints.{ℤ}

abbrev pub n_sensors : ℕ
n_sensors = 28

-- `SENSOR_TAGS`, by slot.
abbrev pub sensor_tags : List String
sensor_tags =
    "Temp_1" ∷ "Temp_2" ∷ "Temp_3" ∷ "Temp_4" ∷ "Temp_5" ∷ "Temp_6" ∷ "Temp_7" ∷ "Temp_8" ∷ "Temp_9"
    ∷ "Temp_10" ∷ "Temp_11" ∷ "Temp_12" ∷ "Vaisala_Conden_Temp" ∷ "Press_1" ∷ "Press_2" ∷ "Press_3"
    ∷ "Press_4" ∷ "Press_5" ∷ "Vaisala_Conden_WVP" ∷ "Raw_Module_1_Pressure_Grey"
    ∷ "Raw_Module_1_Pressure_White" ∷ "Raw_Module_2_Pressure_Grey" ∷ "Raw_Module_2_Pressure_White"
    ∷ "Atmosphere_Temp" ∷ "Atmosphere_Humidity" ∷ "Atmosphere_Temp_02" ∷ "Atmosphere_Humidity_02"
    ∷ "Collection_Tank_Level" ∷ []

-- `REAL_TAGS` with `REAL_SLOT`.
abbrev pub real_slots : List (String × ℕ)
real_slots =
    ("Temp_1", 0)
    ∷ ("Temp_2", 1)
    ∷ ("Temp_3", 2)
    ∷ ("Temp_4", 3)
    ∷ ("Temp_5", 4)
    ∷ ("Temp_6", 5)
    ∷ ("Temp_7", 6)
    ∷ ("Temp_8", 7)
    ∷ ("Temp_9", 8)
    ∷ ("Temp_10", 9)
    ∷ ("Temp_11", 10)
    ∷ ("Temp_12", 11)
    ∷ ("Vaisala_Conden_Temp", 12)
    ∷ ("Press_1", 13)
    ∷ ("Press_2", 14)
    ∷ ("Press_3", 15)
    ∷ ("Press_4", 16)
    ∷ ("Press_5", 17)
    ∷ ("Vaisala_Conden_WVP", 18)
    ∷ ("Atmosphere_Temp", 23)
    ∷ ("Atmosphere_Humidity", 24)
    ∷ ("Collection_Tank_Level", 27)
    ∷ []

-- `DINT_TAGS` with `DINT_SLOT`.
abbrev pub dint_slots : List (String × ℕ)
dint_slots =
    ("Raw_Module_1_Pressure_Grey", 19)
    ∷ ("Raw_Module_1_Pressure_White", 20)
    ∷ ("Raw_Module_2_Pressure_Grey", 21)
    ∷ ("Raw_Module_2_Pressure_White", 22)
    ∷ ("Atmosphere_Temp_02", 25)
    ∷ ("Atmosphere_Humidity_02", 26)
    ∷ []

abbrev pub is_some : {A : Type 0} → Option A → Bool
is_some none = false
is_some (some x) = true

abbrev pub or_kept : {A : Type 0} → A → Option A → A
or_kept d none = d
or_kept d (some x) = x

abbrev pub put_at : {A : Type 0} → (ℕ → A) → ℕ → A → ℕ → A
put_at f j v i = if i == j then v else f i

-- The static buffer of the REALs, and what a sweep leaves in the snapshot.
pub record Sweep (F : Type 0) : Type 0 where
  pub rvals : ℕ → F
  pub sensor : ℕ → F
  pub ok : ℕ → Bool
  pub fails : ℕ
  pub fail_tag : String
  pub plc_connected : Bool
  pub last_error : String
  pub ended : Bool

-- What the PLC answers to a read of each tag.
pub record Reads (F : Type 0) : Type 0 where
  pub real : String → Option F
  pub dint : String → Option ℤ

-- How many of the slots `k`, `k + 1`, … of the tags were not read.
unfoldable pub count_unread : (ℕ → Bool) → ℕ → List String → ℕ
count_unread ok k [] = 0
count_unread ok k (t ∷ ts) = (if ok k then 0 else 1) + count_unread ok (suc k) ts

-- The first tag that was not read.
unfoldable pub first_bad : (ℕ → Bool) → ℕ → List String → String
first_bad ok k [] = "ok"
first_bad ok k (t ∷ ts) = let rest = first_bad ok (suc k) ts in if ok k then rest else t

module _ {F : Type 0} where
  -- Unread REALs keep what the buffer had.
  unfoldable pub scatter_reals : Reads F → List (String × ℕ) → ℕ → Sweep F → Sweep F
  scatter_reals a [] k s = s
  scatter_reals a ((tag, slot) ∷ rs) k s =
      let v = or_kept (s.rvals k) (a.real tag) in
      scatter_reals a rs (suc k) (record s {
        rvals = put_at s.rvals k v;
        sensor = put_at s.sensor slot v;
        ok = put_at s.ok slot (is_some (a.real tag));
      })

module _ (fl : Floats) where
  -- `(float)raw * DINT_SCALE[k] + DINT_OFFSET[k]`: the scales are all 1, the offsets 0.
  abbrev pub scaled : ℤ → fl.F
  scaled raw = fl.add (fl.mul (fl.of_int raw) (fl.lit 1 1)) (fl.lit 0 1)

  abbrev pub take_dint : ℕ → Option ℤ → Sweep fl.F → Sweep fl.F
  take_dint slot none s = s
  take_dint slot (some raw) s = record s {
    sensor = put_at s.sensor slot (scaled raw);
    ok = put_at s.ok slot true;
  }

  unfoldable pub scatter_dints : Reads fl.F → List (String × ℕ) → Sweep fl.F → Sweep fl.F
  scatter_dints a [] s = s
  scatter_dints a ((tag, slot) ∷ ds) s = scatter_dints a ds (take_dint slot (a.dint tag) s)

  unfoldable pub scatter : Reads fl.F → Sweep fl.F → Sweep fl.F
  scatter a s =
      scatter_dints a dint_slots (scatter_reals a real_slots 0 (record s { ok = λ _. false }))

  -- The verdict on a sweep; with all unread the session is ended, `eip.end()`.
  unfoldable pub judge_sweep : (ℕ → String) → Sweep fl.F → Sweep fl.F
  judge_sweep print s =
      let n = count_unread s.ok 0 sensor_tags in
      let bad = first_bad s.ok 0 sensor_tags in
      let all = leb n_sensors n in
      record s {
        fails = n;
        fail_tag = if all then "all sensors" else bad;
        plc_connected = if n == 0 then true else if all then false else s.plc_connected;
        last_error = if n == 0 then "ok" else print n;
        ended = all;
      }

  -- `pollSensorsInto`.
  unfoldable pub poll_sensors : Reads fl.F → (ℕ → String) → Sweep fl.F → Sweep fl.F
  poll_sensors a print s = judge_sweep print (scatter a s)
