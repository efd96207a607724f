-- ===== src/Water.antt =====
-- flow_meter.h: the pulse meter, and the journal of the litres that the PLC's total does not have
-- yet. water_plc.h: the writes to the PLC, the reset of the totals, and the hourly clock. `pulses`
-- is the interrupt's count. The snapshot's fields are kept beside the statics.
pub mod FlowMeter
pub mod Books
pub mod Journal
pub mod Passes
pub mod Kept
pub mod Wrap
mod Examples
use Prim.Native.String.{◌∷◌, String}
use opta_gateway_mt.Base.{
  sub32, leb, ◌||◌, ◌*◌, ◌^◌, ◌-◌, ◌&&◌, ◌++◌, ◌%◌, ◌∷◌, not, length, ltb, ◌==◌, List, Bool,
  if◌then◌else◌, ◌/◌, Option, none, some, [], false, true, ℕ, zero, suc,
}
use opta_gateway_mt.Base.Floats.{Floats}
use opta_gateway_mt.Water.FlowMeter.{Meter, flow_reset}

abbrev pub hmi_update_sec : ℕ
hmi_update_sec = 3600

abbrev pub hmi_min_gap_ms : ℕ
hmi_min_gap_ms = 3000000

abbrev pub trip_hist_n : ℕ
trip_hist_n = 5

-- The PLC's tags.
pub data Tag : Type 0 where
  prod_flowrate prod_watervolume cumul_watervol cumul_vol_reset : Tag
  display_watervol trip_watervol trip_mark trip_reset : Tag
  trip_hist : ℕ → Tag

pub data Value (F : Type 0) : Type 0 where
  real : F → Value F
  bool : Bool → Value F

-- One write to the PLC and whether it was taken.
pub record TagWrite (F : Type 0) : Type 0 where
  pub tag : Tag
  pub value : Value F
  pub taken : Bool

-- What is put into `lastError`; the second with the millilitres that
-- it prints, the third with the tag.
pub data Told : Type 0 where
  told : String → Told
  commit_rejected : ℕ → Told
  write_fail : Tag → Told

-- The statics of water_plc.h, those of `hmiUpdateDue` and `waterToPlc` too, the fields that they
-- leave in the snapshot, and the log of writes.
pub record Water (F : Type 0) : Type 0 where
  pub meter : Meter F
  pub last_good_cum : F
  pub last_good_valid : Bool
  pub last_hour : ℕ
  pub hmi_last_ms : ℕ
  pub ever_run : Bool
  pub last_write : ℕ
  pub ever_ok : Bool
  pub trip_ever_ok : Bool
  pub trip_last_try : ℕ
  pub core_fails : ℕ
  pub live_cum : F
  pub live_trip : F
  pub live_trip_valid : Bool
  pub hmi_write_ok : Bool
  pub hmi_write_count : ℕ
  pub restores : ℕ
  pub flow_write_ok : Bool
  pub last_error : Told
  pub writes : List (TagWrite F)

-- What a pass meets: the clocks, what the PLC answers to each read, and whether it takes the write
-- that comes `k`-th in the log.
pub record Pass (F : Type 0) : Type 0 where
  pub now : ℕ
  pub clock : ℕ
  pub cumul_vol_reset_is : Option Bool
  pub trip_reset_is : Option Bool
  pub cum_at_trip : Option F
  pub base : Option F
  pub mark : Option F
  pub hist : ℕ → Option F
  pub takes : ℕ → Bool

abbrev pub or_default : {A : Type 0} → A → Option A → A
or_default d none = d
or_default d (some x) = x

abbrev pub is_some : {A : Type 0} → Option A → Bool
is_some none = false
is_some (some x) = true

abbrev pub hist_tags : List Tag
hist_tags = trip_hist 0 ∷ trip_hist 1 ∷ trip_hist 2 ∷ trip_hist 3 ∷ trip_hist 4 ∷ []

-- The tags that a reset zeroes, in order.
abbrev pub reset_tags : List Tag
reset_tags = cumul_watervol ∷ display_watervol ∷ trip_mark ∷ trip_watervol ∷ hist_tags

module _ {F : Type 0} where
  abbrev pub tell_water : Told → Water F → Water F
  tell_water t w = record w { last_error = t }

  -- `beatWriteReal` and `beatWriteBool`.
  unfoldable pub beat_write : Pass F → Tag → Value F → Water F → Water F × Bool
  beat_write p tag v w =
      let ok = p.takes (length w.writes) in
      (record w { writes = w.writes ++ (record { tag = tag; value = v; taken = ok } ∷ []) }, ok)

module _ (fl : Floats) where
  abbrev pub zero_value : Value fl.F
  zero_value = real (fl.lit 0 1)

  -- Zeroes each tag, whether the ones before it were taken or not.
  unfoldable pub write_zeros : Pass fl.F → List Tag → Water fl.F → Water fl.F × Bool
  write_zeros p [] w = (w, true)
  write_zeros p (t ∷ ts) w =
      let a = beat_write p t zero_value w in let b = write_zeros p ts a.0 in (b.0, a.1 && b.1)

  -- `waterOnReset`.
  unfoldable pub water_on_reset : Pass fl.F → Water fl.F → Water fl.F × Bool
  water_on_reset p w =
      let z = write_zeros p reset_tags w in
      if z.1
      then (
        record (z.0) {
          meter = flow_reset fl z.0.meter;
          last_good_cum = fl.lit 0 1;
          last_good_valid = true;
        },
        true,
      )
      else (z.0, false)

  -- `saneVol`, on a read.
  abbrev pub sane_vol : Option fl.F → Bool
  sane_vol none = false
  sane_vol (some v) =
      not (fl.is_nan v)
      && fl.le (fl.lit 0 1) v
      && fl.le v (fl.mul (fl.lit 500000 1) (fl.lit 101 100))

  -- The loop of `waterVolWrap`; each round takes one full turn off.
  unfoldable pub wrap_loop : ℕ → fl.F → fl.F
  wrap_loop zero v = v
  wrap_loop (suc f) v =
      let rest = wrap_loop f (fl.sub v (fl.lit 500000 1)) in
      if fl.le (fl.lit 500000 1) v then rest else v

  unfoldable pub water_vol_wrap : fl.F → fl.F
  water_vol_wrap v = wrap_loop (suc (fl.trunc v / 500000)) v

  -- `tripFromMark`.
  abbrev pub trip_from_mark : fl.F → fl.F → fl.F
  trip_from_mark cum mark =
      let t = fl.sub cum mark in if fl.lt t (fl.lit 0 1) then fl.add t (fl.lit 500000 1) else t

  -- `hmiUpdateDue`: whether it is due, and whether this is the first time.
  unfoldable pub hmi_update_due : Pass fl.F → Water fl.F → Water fl.F × Bool × Bool
  hmi_update_due p w =
      let real_clock = ltb 1600000000 p.clock in
      let h = p.clock % 2 ^ 32 / hmi_update_sec in
      let changed = not (h == w.last_hour) in
      let gap = if real_clock then hmi_min_gap_ms else hmi_update_sec * 1000 in
      let spaced = not w.ever_run || leb gap (sub32 p.now w.hmi_last_ms) in
      let due = spaced && (not real_clock || changed) in
      let w1 : Water fl.F = if real_clock && changed then record w { last_hour = h } else w in
      if due
      then (record w1 { hmi_last_ms = p.now; ever_run = true }, true, not w.ever_run)
      else (w1, false, false)

  -- `tripHistoryPush`, the slots below `n`, the oldest first.
  unfoldable pub push_hist : Pass fl.F → fl.F → ℕ → Water fl.F → Water fl.F × Bool
  push_hist p reading zero w = (w, true)
  push_hist p reading (suc i) w =
      let v = if i == 0 then reading else or_default (fl.lit 0 1) (p.hist (i - 1)) in
      let a = beat_write p (trip_hist i) (real v) w in
      let b =
        push_hist p reading i (if a.1 then a.0 else tell_water (write_fail (trip_hist i)) a.0) in
      (b.0, a.1 && b.1)
