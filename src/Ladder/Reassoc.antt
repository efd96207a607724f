-- ===== src/Ladder/Reassoc.antt =====
-- cloud_ladder.h: how often, and when, the ladder drops the WiFi association in an outage.
use opta_gateway_mt.Base.{
  ℕ, ◌+◌, ◌≤◌, ◌≡◌, ◌≢◌, ◌⊎◌, true, false, arith, sub32, List, [], ◌∷◌, ◌++◌,
}
use opta_gateway_mt.Ladder.{
  Ladder, Seen, Act, disconnect, tick, tick_down, track_wifi, climb, record_row, reset_rung,
  reassoc, episode_begin, is_settled, dns_tested, reassoc1_ms, reassoc2_ms,
}

abbrev pub is_disconnect : Act → ℕ
is_disconnect disconnect = 1
is_disconnect _ = 0

unfoldable pub disconnects : List Act → ℕ
disconnects [] = 0
disconnects (a ∷ rest) = is_disconnect a + disconnects rest

pub disconnects-append :
    (xs ys : List Act) → disconnects (xs ++ ys) ≡ disconnects xs + disconnects ys
unfolding disconnects
disconnects-append [] ys = omega arith
disconnects-append (x ∷ xs) ys = omega (arith, disconnects-append xs ys)

record_row-quiet :
    (s : Seen) (d : Ladder)
    → let e = (record_row s d).0 in
      (e.reassoc_done ≡ d.reassoc_done)
      × (e.offline_since ≡ d.offline_since)
      × (e.wifi_up_since ≡ d.wifi_up_since)
      × (disconnects (record_row s d).1 ≡ 0)
unfolding record_row disconnects dns_tested
record_row-quiet s d = ground arith

-- A step of the rungs drops the association as often as it counts.
climb-counts :
    (s : Seen) (d : Ladder)
    → d.reassoc_done ≤ 2
    → ((climb s d).0.reassoc_done ≡ d.reassoc_done + disconnects (climb s d).1)
      × ((climb s d).0.reassoc_done ≤ 2)
      × ((climb s d).0.offline_since ≡ d.offline_since)
unfolding climb reassoc reset_rung disconnects
climb-counts s d h = ground arith

-- The first drop of an outage comes after five minutes, the second after fifteen, each with WiFi
-- settled.
climb-when :
    (s : Seen) (d : Ladder)
    → disconnects (climb s d).1 ≢ 0
    → (is_settled s d ≡ true)
      × (((d.reassoc_done ≡ 0) × (reassoc1_ms ≤ sub32 s.now d.offline_since))
          ⊎ ((d.reassoc_done ≡ 1) × (reassoc2_ms ≤ sub32 s.now d.offline_since)))
unfolding climb reassoc reset_rung disconnects
climb-when s d h = ground arith

tick-counts :
    (s : Seen) (d : Ladder)
    → s.cloud_up ≡ false
    → d.reassoc_done ≤ 2
    → ((tick s d).0.reassoc_done ≡ d.reassoc_done + disconnects (tick s d).1)
      × ((tick s d).0.reassoc_done ≤ 2)
unfolding tick tick_down track_wifi episode_begin disconnects
tick-counts s d u h =
    let d1 = record (track_wifi s d) { cloud_up_since = 0; sync_was_seen = false } in
    let d2 = (record_row s d1).0 in
    ground (
      arith,
      record_row-quiet s d1,
      climb-counts s d2,
      disconnects-append (record_row s d1).1 (climb s d2).1,
    )

-- The passes of an outage, and all that they do.
unfoldable pub outage : List Seen → Ladder → Ladder × List Act
outage [] d = (d, [])
outage (s ∷ ss) d = let (d1, a1) = tick s d in let (d2, a2) = outage ss d1 in (d2, a1 ++ a2)

abbrev pub AllDown : List Seen → Type 0
AllDown [] = Unit
AllDown (s ∷ ss) = (s.cloud_up ≡ false) × AllDown ss

-- However long the cloud stays down, the ladder drops the WiFi association at most twice in the
-- outage, and its counter says how often.
pub outage-disconnects :
    (ss : List Seen) (d : Ladder)
    → AllDown ss
    → d.reassoc_done ≤ 2
    → let (e, acts) = outage ss d in
      (e.reassoc_done ≡ d.reassoc_done + disconnects acts) × (e.reassoc_done ≤ 2)
unfolding outage disconnects
outage-disconnects [] d all h = omega arith
outage-disconnects (s ∷ ss) d all h =
    let (d1, a1) = tick s d in
    let (d2, a2) = outage ss d1 in
    ground (arith, tick-counts s d all.0, outage-disconnects ss d1 all.1, disconnects-append a1 a2)

-- In an outage the association is dropped only with WiFi settled for two minutes: the first time
-- after five minutes without the cloud, the second after fifteen, and never a third time.
pub tick-drops :
    (s : Seen) (d : Ladder)
    → s.cloud_up ≡ false
    → disconnects (tick s d).1 ≢ 0
    → (is_settled s (track_wifi s d) ≡ true)
      × (((d.reassoc_done ≡ 0) × (reassoc1_ms ≤ sub32 s.now d.offline_since))
          ⊎ ((d.reassoc_done ≡ 1) × (reassoc2_ms ≤ sub32 s.now d.offline_since)))
unfolding tick tick_down track_wifi episode_begin disconnects
tick-drops s d u h =
    let d1 = record (track_wifi s d) { cloud_up_since = 0; sync_was_seen = false } in
    let d2 = (record_row s d1).0 in
    ground (
      arith,
      record_row-quiet s d1,
      climb-when s d2,
      disconnects-append (record_row s d1).1 (climb s d2).1,
    )
