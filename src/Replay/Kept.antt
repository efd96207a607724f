-- ===== src/Replay/Kept.antt =====
-- influx_replay.h: what becomes of the records of the ring in one pass.
use opta_gateway_mt.Base.{
  true, inc32, ◌⊎◌, some, Option, refl, add32, arith, [], take, drop, false, ◌∷◌, length, ◌≡◌, ◌≤◌,
  List, ℕ,
}
use opta_gateway_mt.Base.Floats.{Floats}
use opta_gateway_mt.Replay.{Rec, Replay, is_plausible, is_accepted, is_refused, per_post}
use opta_gateway_mt.Replay.Lines.{Text}
use opta_gateway_mt.Replay.Batch.{batch_lines, next_lines}
use opta_gateway_mt.Replay.Tick.{Pass, queued, max_body}

pub length-zero : {A : Type 0} (xs : List A) → length xs ≡ 0 → xs ≡ []
length-zero [] h = refl
length-zero (x ∷ xs) h = absurd (omega arith)

module _ (fl : Floats) (thing : Text) where
  abbrev pub AllUnusable : List (Rec fl.F) → Type 0
  AllUnusable [] = Unit
  AllUnusable (r ∷ rs) = (is_plausible r.epoch ≡ false) × AllUnusable rs

  -- What happened to `k` records: nothing, a POST that was answered 2xx, one that the server refused
  -- as it is, no POST since no time was right, or no room for the first even alone.
  abbrev pub WasSent : Pass fl.F → Replay fl.F → ℕ → Replay fl.F × Option Text → Type 0
  WasSent p r k out =
      let body = batch_lines fl thing (take k (queued fl thing r)) in
      (out.1 ≡ some body)
      × (is_accepted (p.push body) ≡ true)
      × (out.0.sent_recs ≡ add32 r.sent_recs k)

  abbrev pub WasRefused : Pass fl.F → Replay fl.F → ℕ → Replay fl.F × Option Text → Type 0
  WasRefused p r k out =
      let body = batch_lines fl thing (take k (queued fl thing r)) in
      (out.1 ≡ some body)
      × (is_refused (p.push body) ≡ true)
      × (out.0.rejected ≡ add32 r.rejected k)

  abbrev pub WasUnusable : Pass fl.F → Replay fl.F → ℕ → Replay fl.F × Option Text → Type 0
  WasUnusable p r k out =
      AllUnusable (take k (queued fl thing r)) × (out.0.rejected ≡ add32 r.rejected k)

  abbrev pub WasTooLong : Pass fl.F → Replay fl.F → ℕ → Replay fl.F × Option Text → Type 0
  WasTooLong p r k out =
      (k ≡ 1)
      × (max_body ≤ length (next_lines fl thing (queued fl thing r)))
      × (out.0.dropped ≡ inc32 r.dropped)

  pub record IsDrained (p : Pass fl.F) (r : Replay fl.F) (out : Replay fl.F × Option Text)
      : Type 0 where
    pub k : ℕ
    pub k_in : k ≤ per_post
    pub left : queued fl thing out.0 ≡ drop k (queued fl thing r)
    pub why :
        (k ≡ 0)
        ⊎ (WasSent p r k out
            ⊎ (WasRefused p r k out ⊎ (WasUnusable p r k out ⊎ WasTooLong p r k out)))
