-- ===== src/Ladder/Reset.antt =====
-- cloud_ladder.h: what a whole-board reset takes.
use opta_gateway_mt.Base.{
  Bool-cases, ◌≤◌, ◌<◌, ◌≡◌, ◌≢◌, ◌⊎◌, inl, inr, Bool, true, false, ◌||◌, arith, refl, sub32, List,
  [], ◌∷◌, ◌++◌, ◌==◌,
}
use opta_gateway_mt.Ladder.{
  dns_tested, Ladder, Seen, Act, reset, tick, tick_up, tick_down, track_wifi, climb, record_row,
  reset_rung, reassoc, is_settled, episode_over, no_sync_guard, episode_begin, reset_evidence_ms,
  reset_ceiling_ms, probe_window_ms, ledger_grace_ms,
}

abbrev pub is_reset : Act → Bool
is_reset reset = true
is_reset _ = false

unfoldable pub any_reset : List Act → Bool
any_reset [] = false
any_reset (a ∷ rest) = is_reset a || any_reset rest

pub any_reset-append : (xs ys : List Act) → any_reset (xs ++ ys) ≡ any_reset xs || any_reset ys
unfolding any_reset
any_reset-append [] ys = refl
any_reset-append (x ∷ xs) ys = ground (arith, any_reset-append xs ys)

-- The evidence that a reset rests on. `d` is the ladder with this tick's WiFi clock.
pub record MayReset (s : Seen) (d : Ladder) : Type 0 where
  pub offline : s.cloud_up ≡ false
  pub in_episode : d.offline_since ≢ 0
  pub tried : 0 < d.reassoc_done
  pub rung :
      ((is_settled s d ≡ true)
        × (reset_evidence_ms ≤ sub32 s.now d.offline_since)
        × (s.probe_ok_ms ≢ 0)
        × (sub32 s.now s.probe_ok_ms < probe_window_ms))
      ⊎ (reset_ceiling_ms ≤ sub32 s.now d.offline_since)
  pub flat :
      (s.owed ≡ false) ⊎ ((d.reset_armed_at ≢ 0) × (ledger_grace_ms ≤ sub32 s.now d.reset_armed_at))

record_row-kept :
    (s : Seen) (d : Ladder)
    → let e = (record_row s d).0 in
      (e.offline_since ≡ d.offline_since)
      × (e.wifi_up_since ≡ d.wifi_up_since)
      × (e.reassoc_done ≡ d.reassoc_done)
      × (e.reset_armed_at ≡ d.reset_armed_at)
      × (any_reset (record_row s d).1 ≡ false)
unfolding record_row any_reset dns_tested
record_row-kept s d = ground arith

climb-MayReset :
    (s : Seen) (d : Ladder)
    → s.cloud_up ≡ false
    → d.offline_since ≢ 0
    → any_reset (climb s d).1 ≡ true
    → MayReset s d
unfolding climb reassoc reset_rung any_reset
climb-MayReset s d u o h = record {
  offline = u;
  in_episode = o;
  tried = ground arith;
  rung = ground arith;
  flat = ground arith;
}

tick_up-no_reset : (s : Seen) (d : Ladder) → any_reset (tick_up s d).1 ≡ false
unfolding tick_up episode_over no_sync_guard any_reset
tick_up-no_reset s d = ground arith

tick_down-MayReset :
    (s : Seen) (d : Ladder) → s.cloud_up ≡ false → any_reset (tick_down s d).1 ≡ true → MayReset s d
tick_down-MayReset s d u h = elim (Bool-cases (d.offline_since == 0)) [
  | inl e ↦ absurd (begins e h)
  | inr e ↦ goes e h
]
  where
    d1 : Ladder
    d1 = record d { cloud_up_since = 0; sync_was_seen = false }

    begins : d.offline_since == 0 ≡ true → any_reset (tick_down s d).1 ≡ true → ⊥
    begins e h = unfold tick_down episode_begin any_reset in ground arith

    goes : d.offline_since == 0 ≡ false → any_reset (tick_down s d).1 ≡ true → MayReset s d
    goes e h =
        let d2 = (record_row s d1).0 in
        let kept = record_row-kept s d1 in
        let r : any_reset (climb s d2).1 ≡ true =
          unfold tick_down in
          ground
            (arith, record_row-kept s d1, any_reset-append (record_row s d1).1 (climb s d2).1) in
        let m = climb-MayReset s d2 u (ground (arith, record_row-kept s d1)) r in
        record {
          offline = u;
          in_episode = ground arith;
          tried = ground (arith, kept, m.tried);
          rung = ground (arith, kept, m.rung);
          flat = ground (arith, kept, m.flat);
        }

-- The ladder resets the board only with the cloud down in an outage in which it has already dropped
-- the association at least once; either WiFi has been up for two minutes, twenty minutes of outage
-- have passed and a knock on the broker landed in the last ten, or an hour has passed; and either
-- the water ledger is flat or it has been waited for five minutes.
pub tick-MayReset :
    (s : Seen) (d : Ladder) → any_reset (tick s d).1 ≡ true → MayReset s (track_wifi s d)
unfolding tick
tick-MayReset s d h = elim (Bool-cases s.cloud_up) [
  | inl e ↦ absurd (ground (arith, tick_up-no_reset s (track_wifi s d)))
  | inr e ↦ tick_down-MayReset s (track_wifi s d) e (ground arith)
]

-- The state that the rungs see.
abbrev pub before_climb : Seen → Ladder → Ladder
before_climb s d =
    (record_row s (record (track_wifi s d) { cloud_up_since = 0; sync_was_seen = false })).0

pub tick-climb :
    (s : Seen) (d : Ladder)
    → s.cloud_up ≡ false
    → d.offline_since ≢ 0
    → ((tick s d).0 ≡ (climb s (before_climb s d)).0)
      × (any_reset (tick s d).1 ≡ any_reset (climb s (before_climb s d)).1)
unfolding tick tick_down track_wifi
tick-climb s d u o =
    let d1 = record (track_wifi s d) { cloud_up_since = 0; sync_was_seen = false } in
    ground (
      arith,
      record_row-kept s d1,
      any_reset-append (record_row s d1).1 (climb s (before_climb s d)).1,
    )

pub before_climb-kept :
    (s : Seen) (d : Ladder)
    → ((before_climb s d).offline_since ≡ d.offline_since)
      × ((before_climb s d).wifi_up_since ≡ (track_wifi s d).wifi_up_since)
      × ((before_climb s d).reassoc_done ≡ d.reassoc_done)
      × ((before_climb s d).reset_armed_at ≡ d.reset_armed_at)
unfolding track_wifi
before_climb-kept s d = ground (
  arith,
  record_row-kept s (record (track_wifi s d) { cloud_up_since = 0; sync_was_seen = false }),
)
