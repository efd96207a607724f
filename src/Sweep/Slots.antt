-- ===== src/Sweep/Slots.antt =====
-- plc_tags.h, plc_thread.h: after a sweep each slot says of its own tag whether it was read.
use Prim.Native.String.{String}
use opta_gateway_mt.Base.{
  ap, leb, ◌∙◌, ◌+◌, ◌∷◌, arith, ◌||◌, ◌==◌, if◌then◌else◌, Bool, List, Option, ◌≡◌, refl, none,
  some, [], false, true, ℕ, suc,
}
use opta_gateway_mt.Base.Floats.{Floats}
use opta_gateway_mt.Base.Ints.{ℤ}
use opta_gateway_mt.Sweep.{
  Sweep, Reads, is_some, sensor_tags, scatter_reals, scatter_dints, take_dint, scatter,
  count_unread, judge_sweep, poll_sensors, n_sensors,
}

-- How many flags are down.
abbrev pub unread : List Bool → ℕ
unread [] = 0
unread (b ∷ bs) = (if b then 0 else 1) + unread bs

module _ (fl : Floats) where
  -- The flags of the slots from `k` on, one for each tag.
  abbrev pub flags : (ℕ → Bool) → ℕ → List String → List Bool
  flags ok k [] = []
  flags ok k (t ∷ ts) = ok k ∷ flags ok (suc k) ts

  -- The slots whose sensors the PLC has as DINT.
  abbrev pub is_dint : ℕ → Bool
  is_dint k = k == 19 || k == 20 || k == 21 || k == 22 || k == 25 || k == 26

  -- Whether the PLC answered each slot's own tag.
  abbrev pub answered : Reads fl.F → ℕ → List String → List Bool
  answered a k [] = []
  answered a k (t ∷ ts) =
      (if is_dint k then is_some (a.dint t) else is_some (a.real t)) ∷ answered a (suc k) ts

  take_dint-ok :
      (slot : ℕ) (raw : Option ℤ) (s : Sweep fl.F) (k : ℕ)
      → (take_dint fl slot raw s).ok k ≡ (if k == slot then is_some raw || s.ok k else s.ok k)
  take_dint-ok slot none s k = ground arith
  take_dint-ok slot (some raw) s k = ground arith

  or_false : (b : Bool) → b || false ≡ b
  or_false true = refl
  or_false false = refl

  scatter-flags :
      (a : Reads fl.F) (s : Sweep fl.F)
      → flags (scatter fl a s).ok 0 sensor_tags ≡ answered a 0 sensor_tags
  unfolding scatter scatter_dints scatter_reals
  scatter-flags a s = simp (take_dint-ok, or_false) refl

  count_unread-flags :
      (ok : ℕ → Bool) (k : ℕ) (ts : List String) → count_unread ok k ts ≡ unread (flags ok k ts)
  unfolding count_unread
  count_unread-flags ok k [] = refl
  count_unread-flags ok k (t ∷ ts) =
      ap (λ n. (if ok k then 0 else 1) + n) (count_unread-flags ok (suc k) ts)

  -- What a sweep publishes: a flag for each slot, true exactly if the PLC answered that slot's own
  -- tag, as a REAL or as a DINT; the number of unanswered tags; and the link, which is up if there is
  -- none and down, with the session ended, if there is nothing else.
  pub record IsSwept (a : Reads fl.F) (s : Sweep fl.F) (t : Sweep fl.F) : Type 0 where
    pub oks : flags t.ok 0 sensor_tags ≡ answered a 0 sensor_tags
    pub counted : t.fails ≡ unread (answered a 0 sensor_tags)
    pub linked :
        t.plc_connected
        ≡ (if t.fails == 0 then true else if leb n_sensors t.fails then false else s.plc_connected)
    pub ended : t.ended ≡ leb n_sensors t.fails

  take_dint-link :
      (slot : ℕ) (raw : Option ℤ) (s : Sweep fl.F)
      → (take_dint fl slot raw s).plc_connected ≡ s.plc_connected
  take_dint-link slot none s = refl
  take_dint-link slot (some raw) s = refl

  scatter-link :
      (a : Reads fl.F) (s : Sweep fl.F) → (scatter fl a s).plc_connected ≡ s.plc_connected
  unfolding scatter scatter_dints scatter_reals
  scatter-link a s = simp take_dint-link refl

  -- After a sweep the flag of each of the 28 slots says whether the PLC answered that slot's own tag:
  -- the tables of REAL and DINT tags miss no slot and mix up none. The count of failures is that of
  -- the tags without an answer; with none the link is up, and with all it is down and the session
  -- ended.
  pub poll_sensors-IsSwept :
      (a : Reads fl.F) (print : ℕ → String) (s : Sweep fl.F)
      → IsSwept a s (poll_sensors fl a print s)
  unfolding poll_sensors judge_sweep
  poll_sensors-IsSwept a print s =
      let t = scatter fl a s in
      let n = count_unread t.ok 0 sensor_tags in
      record {
        oks = scatter-flags a s;
        counted = count_unread-flags t.ok 0 sensor_tags ∙ ap unread (scatter-flags a s);
        linked =
            ap (λ b. if n == 0 then true else if leb n_sensors n then false else b)
              (scatter-link a s);
        ended = refl;
      }
