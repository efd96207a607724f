-- ===== src/Replay/Batch.antt =====
-- influx_replay.h: a POST body is the lines of the oldest records, whole records only, as many as
-- there is room for.
use opta_gateway_mt.Base.{
  subst, refl, drop, ◌⊎◌, ◌≤◌, take, sym, false, append_assoc, inr, ◌∙◌, length-append, inl,
  append-nil, none, ap, arith, Bool-cases, ◌≡◌, some, ◌<◌, [], ◌∷◌, ltb, true, length, List,
  if◌then◌else◌, ◌++◌, Bool, Option, ℕ, suc,
}
use opta_gateway_mt.Base.Decimal.{decimal}
use opta_gateway_mt.Base.Floats.{Floats}
use opta_gateway_mt.Base.Texts.{bytes_of}
use opta_gateway_mt.Replay.{Rec, is_plausible}
use opta_gateway_mt.Replay.Lines.{
  and_rest, Text, sensor_var, then_add, fmt_float, line_of, add_line, add_num, add_value,
  add_sensors, add_record, add_plausible, build_batch,
}

-- A body of `cap` bytes holds a text and its NUL.
abbrev fit : ℕ → Text → Option Text
fit cap t = if ltb (length t) cap then some t else none

then_add-fit :
    (cap : ℕ) (o text : Text) (next : Text → Option Text)
    → ((p : Text) → length p < cap → next p ≡ fit cap (p ++ text))
    → then_add (fit cap o) next ≡ fit cap (o ++ text)
then_add-fit cap o text next h = elim (Bool-cases (ltb (length o) cap)) [
  | inl e ↦ rw e (h o (ground arith))
  | inr e ↦
      let e1 : ltb (length (o ++ text)) cap ≡ false = ground (arith, length-append o text) in
      rw (e, e1)
]

add_line-fit :
    (cap : ℕ) (line out : Text) → length out < cap → add_line cap line out ≡ fit cap (out ++ line)
add_line-fit cap line out h = ground (arith, length-append out line)

module _ (fl : Floats) (thing : Text) where
  abbrev pub num_line : Text → Option Text → ℕ → Text
  num_line var none epoch = []
  num_line var (some num) epoch = line_of fl thing var num epoch

  abbrev pub value_line : Bool → Text → fl.F → ℕ → Text
  value_line is_set var val epoch =
      if is_set then num_line var (fmt_float fl thing val) epoch else []

  unfoldable pub sensor_lines : Rec fl.F → ℕ → List Text → Text
  sensor_lines r k [] = []
  sensor_lines r k (var ∷ vars) =
      value_line (r.ok k) var (r.v k) r.epoch ++ sensor_lines r (suc k) vars

  -- All the lines of a record, in order.
  unfoldable pub record_lines : Rec fl.F → Text
  record_lines r =
      sensor_lines r 0 sensor_var
      ++ (value_line true (bytes_of "flowRate") r.flow_rate r.epoch
          ++ (value_line true (bytes_of "flowBatch") r.flow_batch r.epoch
              ++ (value_line r.cum_ok (bytes_of "displayWaterVolume") r.cum r.epoch
                  ++ line_of fl thing (bytes_of "plcConnected") (decimal (if r.plc then 1 else 0))
                      r.epoch)))

  abbrev pub plausible_lines : Rec fl.F → Text
  plausible_lines r = if is_plausible r.epoch then record_lines r else []

  unfoldable pub batch_lines : List (Rec fl.F) → Text
  batch_lines [] = []
  batch_lines (r ∷ rs) = plausible_lines r ++ batch_lines rs

  add_num-fit :
      (cap : ℕ) (var : Text) (num : Option Text) (epoch : ℕ) (out : Text)
      → length out < cap
      → add_num fl thing cap var num epoch out ≡ fit cap (out ++ num_line var num epoch)
  add_num-fit cap var none epoch out h = rw (append-nil out) (ground arith)
  add_num-fit cap var (some num) epoch out h =
      add_line-fit cap (line_of fl thing var num epoch) out h

  add_value-fit :
      (cap : ℕ) (is_set : Bool) (var : Text) (val : fl.F) (epoch : ℕ) (out : Text)
      → length out < cap
      → add_value fl thing cap is_set var val epoch out
        ≡ fit cap (out ++ value_line is_set var val epoch)
  unfolding add_value
  add_value-fit cap true var val epoch out h =
      add_num-fit cap var (fmt_float fl thing val) epoch out h
  add_value-fit cap false var val epoch out h = rw (append-nil out) (ground arith)

  add_sensors-fit :
      (cap : ℕ) (r : Rec fl.F) (k : ℕ) (vars : List Text) (out : Text)
      → length out < cap
      → add_sensors fl thing cap r k vars out ≡ fit cap (out ++ sensor_lines r k vars)
  unfolding add_sensors sensor_lines
  add_sensors-fit cap r k [] out h = rw (append-nil out) (ground arith)
  add_sensors-fit cap r k (var ∷ vars) out h =
      let line = value_line (r.ok k) var (r.v k) r.epoch in
      ap (λ o. then_add o (add_sensors fl thing cap r (suc k) vars))
        (add_value-fit cap (r.ok k) var (r.v k) r.epoch out h)
      ∙ then_add-fit cap (out ++ line) (sensor_lines r (suc k) vars) _
          (λ p hp. add_sensors-fit cap r (suc k) vars p hp)
      ∙ ap (fit cap) (append_assoc out line (sensor_lines r (suc k) vars))

  -- A step and what follows it.
  fit_then :
      (cap : ℕ) (step next : Text → Option Text) (a b : Text)
      → ((p : Text) → length p < cap → step p ≡ fit cap (p ++ a))
      → ((p : Text) → length p < cap → next p ≡ fit cap (p ++ b))
      → (p : Text) → length p < cap
      → then_add (step p) next ≡ fit cap (p ++ (a ++ b))
  fit_then cap step next a b h1 h2 p hp =
      ap (λ o. then_add o next) (h1 p hp)
      ∙ then_add-fit cap (p ++ a) b next h2
      ∙ ap (fit cap) (append_assoc p a b)

  add_record-fit :
      (cap : ℕ) (r : Rec fl.F) (out : Text)
      → length out < cap
      → add_record fl thing cap r out ≡ fit cap (out ++ record_lines r)
  unfolding add_record record_lines
  add_record-fit cap r = fit_then cap _ _ _ _ (add_sensors-fit cap r 0 sensor_var) (
      fit_then cap _ _ _ _ (add_value-fit cap true (bytes_of "flowRate") r.flow_rate r.epoch) (
        fit_then cap _ _ _ _ (add_value-fit cap true (bytes_of "flowBatch") r.flow_batch r.epoch) (
          fit_then cap _ _ _ _
            (add_value-fit cap r.cum_ok (bytes_of "displayWaterVolume") r.cum r.epoch)
            (add_line-fit cap (
              line_of fl thing (bytes_of "plcConnected") (decimal (if r.plc then 1 else 0))
                r.epoch)))))

  add_plausible-fit :
      (cap : ℕ) (r : Rec fl.F) (out : Text)
      → length out < cap
      → add_plausible fl thing cap r out ≡ fit cap (out ++ plausible_lines r)
  unfolding add_plausible
  add_plausible-fit cap r out h = elim (Bool-cases (is_plausible r.epoch)) [
    | inl e ↦ rw e (add_record-fit cap r out h)
    | inr e ↦ rw (e, append-nil out) (ground arith)
  ]

  -- The lines of the first record of a list.
  abbrev pub next_lines : List (Rec fl.F) → Text
  next_lines [] = []
  next_lines (r ∷ rs) = plausible_lines r

  -- What a body holds behind `out`: the lines of the first records of `rs`, to the last or to one
  -- that leaves no room for the NUL.
  pub record IsBatch (cap : ℕ) (rs : List (Rec fl.F)) (out : Text) (b : Text × ℕ) : Type 0 where
    pub body : b.0 ≡ out ++ batch_lines (take b.1 rs)
    pub in_room : length b.0 < cap
    pub used_in : b.1 ≤ length rs
    pub stops : (b.1 ≡ length rs) ⊎ (cap ≤ length (b.0 ++ next_lines (drop b.1 rs)))

  -- On one more record that there is room for.
  IsBatch-more :
      (cap : ℕ) (r : Rec fl.F) (rs : List (Rec fl.F)) (out : Text) (b : Text × ℕ)
      → IsBatch cap rs (out ++ plausible_lines r) b
      → IsBatch cap (r ∷ rs) out (b.0, suc b.1)
  unfolding batch_lines
  IsBatch-more cap r rs out b v = record {
    body = v.body ∙ append_assoc out (plausible_lines r) (batch_lines (take b.1 rs));
    in_room = v.in_room;
    used_in = omega (arith, v.used_in);
    stops = elim v.stops [ inl e ↦ inl (ap suc e) | inr h ↦ inr h ];
  }

  -- A body of `cap` bytes that starts with a text that fits ends with the lines of the first
  -- records, those whose time is plausible, each whole and in order; it has room for its NUL, and
  -- it leaves a record out only if there is no room for it.
  pub build_batch-IsBatch :
      (cap : ℕ) (rs : List (Rec fl.F)) (out : Text)
      → length out < cap
      → IsBatch cap rs out (build_batch fl thing cap rs out)
  unfolding build_batch batch_lines
  build_batch-IsBatch cap [] out h = record {
    body = sym (append-nil out);
    in_room = h;
    used_in = omega arith;
    stops = inl refl;
  }
  build_batch-IsBatch cap (r ∷ rs) out h =
      subst (λ o. IsBatch cap (r ∷ rs) out (and_rest out (build_batch fl thing cap rs) o))
        (sym (add_plausible-fit cap r out h))
        (elim (Bool-cases (ltb (length (out ++ plausible_lines r)) cap)) [
          | inl e ↦ rw e (
              IsBatch-more cap r rs out _
                (build_batch-IsBatch cap rs (out ++ plausible_lines r) (ground arith)))
          | inr e ↦ rw e (record {
            body = sym (append-nil out);
            in_room = h;
            used_in = omega arith;
            stops = inr (ground arith);
          })
        ])
