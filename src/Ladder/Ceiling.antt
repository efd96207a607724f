-- ===== src/Ladder/Ceiling.antt =====
-- cloud_ladder.h: the whole-board reset comes.
use opta_gateway_mt.Base.{
  subst, sym, if◌then◌else◌, ◌≤◌, ◌<◌, ◌≡◌, ◌≢◌, ◌-◌, true, false, arith, sub32, List, [], ◌∷◌,
  ◌==◌, ℕ, word,
}
use opta_gateway_mt.Ladder.{
  Ladder, Seen, tick, climb, reset_rung, reset_ceiling_ms, ledger_grace_ms,
}
use opta_gateway_mt.Ladder.Reset.{
  any_reset, any_reset-append, before_climb, before_climb-kept, tick-climb,
}
use opta_gateway_mt.Ladder.Reassoc.{outage}

-- The pass that arms the rung, if none has yet.
abbrev pub armed_from : Seen → Ladder → ℕ
armed_from s d = if d.reset_armed_at == 0 then s.now else d.reset_armed_at

-- Passes with the cloud down, an hour or more after `off`, on a clock that does not wrap.
abbrev pub AllLate : ℕ → ℕ → List Seen → Type 0
AllLate off start [] = Unit
AllLate off start (s ∷ ss) =
    (s.cloud_up ≡ false)
    × (s.now ≢ 0)
    × (start ≤ s.now)
    × (s.now < word)
    × (reset_ceiling_ms ≤ sub32 s.now off)
    × AllLate off s.now ss

abbrev pub last_now : ℕ → List Seen → ℕ
last_now now [] = now
last_now now (s ∷ ss) = last_now s.now ss

-- At the ceiling the rung is armed once, and nothing that it looks at changes.
climb-armed :
    (s : Seen) (d : Ladder)
    → reset_ceiling_ms ≤ sub32 s.now d.offline_since
    → 2 ≤ d.reassoc_done
    → ((climb s d).0.offline_since ≡ d.offline_since)
      × ((climb s d).0.reassoc_done ≡ d.reassoc_done)
      × ((climb s d).0.reset_armed_at ≡ armed_from s d)
unfolding climb reset_rung
climb-armed s d c two = ground arith

climb-fires :
    (s : Seen) (d : Ladder)
    → reset_ceiling_ms ≤ sub32 s.now d.offline_since
    → 2 ≤ d.reassoc_done
    → ledger_grace_ms ≤ sub32 s.now (armed_from s d)
    → any_reset (climb s d).1 ≡ true
unfolding climb reset_rung any_reset
climb-fires s d c two g = ground arith

tick-armed :
    (s : Seen) (d : Ladder)
    → s.cloud_up ≡ false
    → d.offline_since ≢ 0
    → reset_ceiling_ms ≤ sub32 s.now d.offline_since
    → 2 ≤ d.reassoc_done
    → ((tick s d).0.offline_since ≡ d.offline_since)
      × ((tick s d).0.reassoc_done ≡ d.reassoc_done)
      × ((tick s d).0.reset_armed_at ≡ armed_from s d)
tick-armed s d u o c two =
    let kept = before_climb-kept s d in
    ground (
      arith,
      kept,
      tick-climb s d u o,
      climb-armed s (before_climb s d) (ground (arith, kept)) (ground (arith, kept)),
    )

tick-fires :
    (s : Seen) (d : Ladder)
    → s.cloud_up ≡ false
    → d.offline_since ≢ 0
    → reset_ceiling_ms ≤ sub32 s.now d.offline_since
    → 2 ≤ d.reassoc_done
    → ledger_grace_ms ≤ sub32 s.now (armed_from s d)
    → any_reset (tick s d).1 ≡ true
tick-fires s d u o c two g =
    let kept = before_climb-kept s d in
    ground (
      arith,
      kept,
      tick-climb s d u o,
      climb-fires s (before_climb s d) (ground (arith, kept)) (ground (arith, kept))
          (ground (arith, kept)),
    )

-- In an outage with both re-associations taken, any run of passes that find the cloud down past its
-- first hour, however many and however far apart, resets the board if it lasts five minutes from the
-- pass that armed the reset: the one before the run that did, or else the first of the run. It does
-- so whatever the ledger, WiFi and the probe say. The clock is not 0 at a pass, and does not wrap in
-- the run.
pub outage-resets :
    (s : Seen) (ss : List Seen) (d : Ladder)
    → d.offline_since ≢ 0
    → 2 ≤ d.reassoc_done
    → AllLate d.offline_since d.reset_armed_at (s ∷ ss)
    → ledger_grace_ms ≤ last_now s.now ss - armed_from s d
    → any_reset (outage (s ∷ ss) d).1 ≡ true
unfolding outage
outage-resets s [] d o two (u, n, a, w, c, l) g =
    ground (arith, any_reset-append (tick s d).1 [], tick-fires s d u o c two (ground arith))
outage-resets s (t ∷ ts) d o two (u, n, a, w, c, l) g =
    let e = (tick s d).0 in
    let kept = tick-armed s d u o c two in
    let late : AllLate e.offline_since e.reset_armed_at (t ∷ ts) = (
      l.0,
      l.1,
      ground (arith, kept, l.2),
      l.3,
      ground (arith, kept, l.4),
      subst (λ off. AllLate off t.now ts) (sym kept.0) l.5,
    ) in
    let rest =
      outage-resets t ts e (ground (arith, kept)) (ground (arith, kept)) late
        (ground (arith, kept)) in
    ground (arith, rest, any_reset-append (tick s d).1 (outage (t ∷ ts) e).1)
