-- ===== src/Ladder/Examples.antt =====
-- cloud_ladder.h: concrete outages.
use opta_gateway_mt.Base.{
  List, ℕ, [], ◌∷◌, true, false, none, ◌≡◌, ◌≤◌, ◌+◌, ◌⊎◌, refl, arith, sub32,
}
use opta_gateway_mt.Ladder.{
  Ladder, Seen, tick, track_wifi, is_settled, climb, reset_rung, record_row, tick_down, reset_acts,
  reassoc1_ms, reassoc2_ms, dns_tested, reassoc,
}
use opta_gateway_mt.Ladder.Reset.{any_reset, MayReset, tick-MayReset}
use opta_gateway_mt.Ladder.Ceiling.{outage-resets}
use opta_gateway_mt.Ladder.Reassoc.{outage, disconnects, outage-disconnects, tick-drops}

-- WiFi up for two hours, the cloud down for the last one, both re-associations taken.
abbrev late : Ladder
late = record {
  offline_since = 3600000;
  wifi_up_since = 1000;
  reset_armed_at = 0;
  reassoc_done = 2;
  reassoc_total = 2;
  oks0 = 0;
  fails0 = 0;
  fail_opens0 = 0;
  cloud_up_since = 0;
  no_sync_kicked = false;
  no_sync_kicks = 0;
  sync_was_seen = false;
  gw_ping_done = true;
  dns_ok = none;
  dns_ms = 0;
  dns_fails = 0;
  cloud_ms_max = 0;
  last_row_ms = 7190000;
}

-- The broker does not answer, and water is still owed.
abbrev owing : ℕ → Seen
owing t = record {
  wifi_up = true;
  cloud_up = false;
  now = t;
  owed = true;
  oks = 4;
  fails = 20;
  fail_opens = 8;
  probe_ok = false;
  probe_ok_ms = 0;
  sync = false;
  cloud_ms = 12;
  dns = false;
  dns_took = 300;
  rssi = 61;
  heap = 180000;
  gw_answers = false;
  radio_up = true;
}

-- Passes ten seconds, two minutes and six minutes into the run.
abbrev more : List Seen
more = owing 7220000 ∷ owing 7330000 ∷ owing 7510000 ∷ []

outage-resets_example : any_reset (outage (owing 7210000 ∷ more) late).1 ≡ true
outage-resets_example =
    outage-resets (owing 7210000) more late (omega arith) (omega arith)
      (
        refl,
        omega arith,
        omega arith,
        omega arith,
        omega arith,
        (
          refl,
          omega arith,
          omega arith,
          omega arith,
          omega arith,
          (
            refl,
            omega arith,
            omega arith,
            omega arith,
            omega arith,
            (refl, omega arith, omega arith, omega arith, omega arith, tt),
          ),
        ),
      )
      (omega arith)

-- Armed five minutes ago.
abbrev armed : Ladder
armed = record late { reset_armed_at = 7210000 }

tick-MayReset_example : MayReset (owing 7510000) (track_wifi (owing 7510000) armed)
unfolding tick tick_down track_wifi record_row climb reset_rung any_reset reset_acts dns_tested
tick-MayReset_example = tick-MayReset (owing 7510000) armed refl

-- Six minutes into an outage.
abbrev early : Ladder
early = record late { reassoc_done = 0 }

outage-disconnects_example :
    let (e, acts) = outage (owing 3960000 ∷ owing 3960100 ∷ owing 4500000 ∷ []) early in
    (e.reassoc_done ≡ 0 + disconnects acts) × (e.reassoc_done ≤ 2)
outage-disconnects_example =
    outage-disconnects (owing 3960000 ∷ owing 3960100 ∷ owing 4500000 ∷ []) early
      (refl, (refl, (refl, tt))) (omega arith)

tick-drops_example :
    (is_settled (owing 3960000) (track_wifi (owing 3960000) early) ≡ true)
    × (((early.reassoc_done ≡ 0) × (reassoc1_ms ≤ sub32 3960000 early.offline_since))
        ⊎ ((early.reassoc_done ≡ 1) × (reassoc2_ms ≤ sub32 3960000 early.offline_since)))
unfolding tick tick_down track_wifi record_row climb reassoc disconnects dns_tested
tick-drops_example = tick-drops (owing 3960000) early refl (omega arith)

-- Connected at 3 700 s, no SYNC since.
abbrev unsynced : ℕ → Seen
unsynced t = record (owing t) { cloud_up = true }

abbrev connected : Ladder
connected = record late { offline_since = 0; reassoc_done = 0; cloud_up_since = 3700000 }
