-- ===== src/Ladder/NoSync.antt =====
-- cloud_ladder.h: a connection that never sees SYNC is dropped, once.
use opta_gateway_mt.Base.{
  ℕ, ◌+◌, ◌≤◌, ◌≡◌, ◌≢◌, true, false, arith, sub32, List, [], ◌∷◌, if◌then◌else◌,
}
use opta_gateway_mt.Ladder.{
  Ladder, Seen, tick, tick_up, track_wifi, episode_over, no_sync_guard, nosync_ms,
}
use opta_gateway_mt.Ladder.Reassoc.{disconnects, disconnects-append, outage}

abbrev pub AllUp : List Seen → Type 0
AllUp [] = Unit
AllUp (s ∷ ss) = (s.cloud_up ≡ true) × (s.now ≢ 0) × AllUp ss

-- 1 if the kick of this connection is still to come.
abbrev left : Ladder → ℕ
left d = if d.no_sync_kicked then 0 else 1

tick-left :
    (s : Seen) (d : Ladder)
    → s.cloud_up ≡ true
    → s.now ≢ 0
    → d.cloud_up_since ≢ 0
    → (left (tick s d).0 + disconnects (tick s d).1 ≤ left d) × ((tick s d).0.cloud_up_since ≢ 0)
unfolding tick tick_up track_wifi episode_over no_sync_guard disconnects
tick-left s d u n c = ground arith

tick-first :
    (s : Seen) (d : Ladder)
    → s.cloud_up ≡ true
    → s.now ≢ 0
    → (left (tick s d).0 + disconnects (tick s d).1 ≤ 1) × ((tick s d).0.cloud_up_since ≢ 0)
unfolding tick tick_up track_wifi episode_over no_sync_guard disconnects
tick-first s d u n = ground arith

outage-left :
    (ss : List Seen) (d : Ladder)
    → AllUp ss
    → d.cloud_up_since ≢ 0
    → disconnects (outage ss d).1 ≤ left d
unfolding outage disconnects
outage-left [] d all c = omega arith
outage-left (s ∷ ss) d all c =
    let (d1, a1) = tick s d in
    let (d2, a2) = outage ss d1 in
    ground (arith, tick-left s d all.0 all.1 c, outage-left ss d1 all.2, disconnects-append a1 a2)

-- Over any run of passes with the cloud connected, the association is dropped at most once.
pub outage-one_kick : (ss : List Seen) (d : Ladder) → AllUp ss → disconnects (outage ss d).1 ≤ 1
unfolding outage disconnects
outage-one_kick [] d all = omega arith
outage-one_kick (s ∷ ss) d all =
    let (d1, a1) = tick s d in
    let (d2, a2) = outage ss d1 in
    ground (arith, tick-first s d all.0 all.1, outage-left ss d1 all.2, disconnects-append a1 a2)

-- With the cloud connected the association is dropped only if no SYNC is seen, the connection (or
-- the loss of its SYNC) is six minutes old, and this connection has not been dropped before.
pub tick-kick :
    (s : Seen) (d : Ladder)
    → s.cloud_up ≡ true
    → d.cloud_up_since ≢ 0
    → disconnects (tick s d).1 ≢ 0
    → (s.sync ≡ false)
      × (d.sync_was_seen ≡ false)
      × (d.no_sync_kicked ≡ false)
      × (nosync_ms ≤ sub32 s.now d.cloud_up_since)
unfolding tick tick_up track_wifi episode_over no_sync_guard disconnects
tick-kick s d u c h = ground arith
