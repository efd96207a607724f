-- ===== src/Ladder.antt =====
-- cloud_ladder.h: what to do, and when, while WiFi is up and the cloud stays down. A tick returns the
-- new state and the acts that it performs, in order. The network's and the other files' answers at
-- the tick are the fields of `Seen`.
pub mod Reset
pub mod Reassoc
pub mod Ceiling
pub mod NoSync
mod Examples
use opta_gateway_mt.Base.{
  ℕ, ◌+◌, ◌*◌, ◌/◌, ◌%◌, Bool, true, false, not, ◌&&◌, ◌||◌, List, [], ◌∷◌, ◌++◌, Option, none,
  some, ltb, leb, ◌==◌, if◌then◌else◌, sub32, inc32,
}

abbrev pub wifi_settle_ms : ℕ
wifi_settle_ms = 120000

abbrev pub reassoc1_ms : ℕ
reassoc1_ms = 300000

abbrev pub reassoc2_ms : ℕ
reassoc2_ms = 900000

abbrev pub reset_evidence_ms : ℕ
reset_evidence_ms = 1200000

abbrev pub probe_window_ms : ℕ
probe_window_ms = 600000

abbrev pub reset_ceiling_ms : ℕ
reset_ceiling_ms = 3600000

abbrev pub ledger_grace_ms : ℕ
ledger_grace_ms = 300000

abbrev pub nosync_ms : ℕ
nosync_ms = 360000

-- `EPI_PERIOD_MS` and `EPI_PERSIST_MIN_MS` of episode_log.h.
abbrev pub epi_period_ms : ℕ
epi_period_ms = 60000

abbrev pub epi_persist_min_ms : ℕ
epi_persist_min_ms = 300000

-- The file's statics. `dns_ok` is none where the source holds -1.
pub record Ladder : Type 0 where
  pub offline_since : ℕ
  pub wifi_up_since : ℕ
  pub reset_armed_at : ℕ
  pub reassoc_done : ℕ
  pub reassoc_total : ℕ
  pub oks0 : ℕ
  pub fails0 : ℕ
  pub fail_opens0 : ℕ
  pub cloud_up_since : ℕ
  pub no_sync_kicked : Bool
  pub no_sync_kicks : ℕ
  pub sync_was_seen : Bool
  pub gw_ping_done : Bool
  pub dns_ok : Option Bool
  pub dns_ms : ℕ
  pub dns_fails : ℕ
  pub cloud_ms_max : ℕ
  pub last_row_ms : ℕ

-- The caller's two flags and clock, the probe's counters, the SYNC flag, the last pass's length, a
-- DNS test's answer and length (no interface is `false` and 0), the radio's level (the size of the
-- negative dBm), the free heap, the gateway ping, the radio at the
-- marker, and whether the water ledger is 10 mL or more from flat.
pub record Seen : Type 0 where
  pub wifi_up : Bool
  pub cloud_up : Bool
  pub now : ℕ
  pub owed : Bool
  pub oks : ℕ
  pub fails : ℕ
  pub fail_opens : ℕ
  pub probe_ok : Bool
  pub probe_ok_ms : ℕ
  pub sync : Bool
  pub cloud_ms : ℕ
  pub dns : Bool
  pub dns_took : ℕ
  pub rssi : ℕ
  pub heap : ℕ
  pub gw_answers : Bool
  pub radio_up : Bool

pub record Row : Type 0 where
  pub off_min : ℕ
  pub wifi : Bool
  pub probe : Bool
  pub dns : Option Bool
  pub dns_ms : ℕ
  pub cloud_ms : ℕ
  pub rssi : ℕ
  pub heap : ℕ

-- The evidence in the reset marker: `p=oks/fails fo= wr= gw= dns=`.
pub record Marker : Type 0 where
  pub off_min : ℕ
  pub oks : ℕ
  pub fails : ℕ
  pub fail_opens : ℕ
  pub reassocs : ℕ
  pub gw : Option Bool
  pub dns : Option Bool

-- `disconnect` is `WiFi.disconnect()`; `reset` is `NVIC_SystemReset()` and comes last.
pub data Act : Type 0 where
  disconnect : Act
  ping : Act
  dns_test : Act
  log_clear : Act
  log_row : Row → Act
  log_heal : ℕ → Act
  mark : Marker → Act
  log_reset : ℕ → Act
  keep_replay : Act
  reset : Act

unfoldable pub cloud_offline_min : ℕ → Ladder → ℕ
cloud_offline_min now d = if d.offline_since == 0 then 0 else sub32 now d.offline_since / 60000

-- `cloudLadderReassoc`; `s_ldReassocDone` is a `uint8_t`.
unfoldable pub reassoc : Ladder → Ladder × List Act
reassoc d = (
  record d { reassoc_done = (d.reassoc_done + 1) % 256; reassoc_total = inc32 d.reassoc_total },
  disconnect ∷ [],
)

-- The first lines of the tick: since when WiFi has been up.
unfoldable pub track_wifi : Seen → Ladder → Ladder
track_wifi s d = record d {
  wifi_up_since =
      if not s.wifi_up then 0 else if d.wifi_up_since == 0 then s.now else d.wifi_up_since;
}

-- The cloud is up: the episode ends, the gateway is pinged once a boot, and a connection without
-- SYNC is dropped once.
unfoldable pub episode_over : Seen → Ladder → Ladder × List Act
episode_over s d =
    let d1 : Ladder =
      if d.cloud_up_since == 0
      then record d { cloud_up_since = s.now; no_sync_kicked = false }
      else d in
    let healed : List Act =
      if not (d.offline_since == 0) && leb epi_persist_min_ms (sub32 s.now d.offline_since)
      then log_heal (sub32 s.now d.offline_since / 60000) ∷ []
      else [] in
    let pinged : List Act = if d.gw_ping_done then [] else ping ∷ [] in
    (
      record d1 { offline_since = 0; reset_armed_at = 0; reassoc_done = 0; gw_ping_done = true },
      healed ++ pinged,
    )

unfoldable pub no_sync_guard : Seen → Ladder → Ladder × List Act
no_sync_guard s d =
    let d1 : Ladder = record d {
      cloud_up_since = if d.sync_was_seen && not s.sync then s.now else d.cloud_up_since;
      sync_was_seen = s.sync;
    } in
    if not s.sync && not d1.no_sync_kicked && leb nosync_ms (sub32 s.now d1.cloud_up_since)
    then (
      record d1 { no_sync_kicked = true; no_sync_kicks = inc32 d1.no_sync_kicks },
      disconnect ∷ [],
    )
    else (d1, [])

unfoldable pub tick_up : Seen → Ladder → Ladder × List Act
tick_up s d = let (d1, a1) = episode_over s d in let (d2, a2) = no_sync_guard s d1 in (d2, a1 ++ a2)

-- The first pass that sees the cloud down: the evidence counters start here.
unfoldable pub episode_begin : Seen → Ladder → Ladder × List Act
episode_begin s d = (
  record d {
    offline_since = s.now;
    oks0 = s.oks;
    fails0 = s.fails;
    fail_opens0 = s.fail_opens;
    dns_ok = none;
    dns_ms = 0;
    dns_fails = 0;
    cloud_ms_max = 0;
    last_row_ms = 0;
  },
  log_clear ∷ [],
)

-- `cloudLadderDnsTest`.
unfoldable pub dns_tested : Seen → Ladder → Ladder
dns_tested s d = record d {
  dns_ok = some s.dns;
  dns_ms = s.dns_took;
  dns_fails = if s.dns then d.dns_fails else inc32 d.dns_fails;
}

-- The fields of a row; the radio's reading only while it is up.
unfoldable pub row_of : Seen → Ladder → Row
row_of s d = record {
  off_min = sub32 s.now d.offline_since / 60000;
  wifi = s.wifi_up;
  probe = s.probe_ok;
  dns = d.dns_ok;
  dns_ms = d.dns_ms;
  cloud_ms = s.cloud_ms;
  rssi = if s.wifi_up then s.rssi else 0;
  heap = s.heap;
}

-- The flight recorder: a row a minute, a DNS test with it from the second minute on.
unfoldable pub record_row : Seen → Ladder → Ladder × List Act
record_row s d =
    let off = sub32 s.now d.offline_since in
    let d1 : Ladder = record d {
      cloud_ms_max = if ltb d.cloud_ms_max s.cloud_ms then s.cloud_ms else d.cloud_ms_max;
    } in
    if d.last_row_ms == 0 || leb epi_period_ms (sub32 s.now d.last_row_ms)
    then (let test = s.wifi_up && leb (2 * epi_period_ms) off in
        let d2 : Ladder = record d1 { last_row_ms = s.now } in
        let d3 : Ladder = (if test then dns_tested s d2 else d2) in
        (d3, (if test then dns_test ∷ [] else []) ++ (log_row (row_of s d3) ∷ [])))
    else (d1, [])

-- The reset itself: router ping, marker, flight recorder, outage records, reset.
unfoldable pub reset_acts : Seen → Ladder → List Act
reset_acts s d =
    let off = sub32 s.now d.offline_since in
    let marker : Marker = record {
      off_min = off / 60000;
      oks = sub32 s.oks d.oks0;
      fails = sub32 s.fails d.fails0;
      fail_opens = sub32 s.fail_opens d.fail_opens0;
      reassocs = d.reassoc_done;
      gw = if s.radio_up then some s.gw_answers else none;
      dns = d.dns_ok;
    } in
    (if s.radio_up then ping ∷ [] else [])
    ++ (mark marker ∷ log_reset (off / 60000) ∷ keep_replay ∷ reset ∷ [])

abbrev pub is_settled : Seen → Ladder → Bool
is_settled s d = s.wifi_up && leb wifi_settle_ms (sub32 s.now d.wifi_up_since)

abbrev pub is_ceiling : Seen → Ladder → Bool
is_ceiling s d =
    leb reset_ceiling_ms (sub32 s.now d.offline_since) && (is_settled s d || ltb 0 d.reassoc_done)

abbrev pub is_upstream_seen : Seen → Bool
is_upstream_seen s = not (s.probe_ok_ms == 0) && ltb (sub32 s.now s.probe_ok_ms) probe_window_ms

-- The reset rungs: evidence or ceiling, then the wait for a flat ledger.
unfoldable pub reset_rung : Seen → Ladder → Ladder × List Act
unfolding reset_acts
reset_rung s d =
    let off = sub32 s.now d.offline_since in
    let due =
      (is_settled s d && leb reset_evidence_ms off && is_upstream_seen s) || is_ceiling s d in
    if not due
    then (record d { reset_armed_at = 0 }, [])
    else let d1 : Ladder = record d {
      reset_armed_at = if d.reset_armed_at == 0 then s.now else d.reset_armed_at;
    } in
      if s.owed && ltb (sub32 s.now d1.reset_armed_at) ledger_grace_ms
      then (d1, [])
      else (d1, reset_acts s d1)

-- The rungs, cheapest first.
unfoldable pub climb : Seen → Ladder → Ladder × List Act
climb s d =
    let off = sub32 s.now d.offline_since in
    if not (is_settled s d) && not (is_ceiling s d)
    then (d, [])
    else if is_settled s d && (d.reassoc_done == 0 && leb reassoc1_ms off)
    then reassoc d
    else if is_settled s d && (d.reassoc_done == 1 && leb reassoc2_ms off)
    then reassoc d
    else reset_rung s d

unfoldable pub tick_down : Seen → Ladder → Ladder × List Act
tick_down s d =
    let d1 : Ladder = record d { cloud_up_since = 0; sync_was_seen = false } in
    if d1.offline_since == 0
    then episode_begin s d1
    else let (d2, a1) = record_row s d1 in let (d3, a2) = climb s d2 in (d3, a1 ++ a2)

-- `cloudLadderTick`.
unfoldable pub tick : Seen → Ladder → Ladder × List Act
tick s d = if s.cloud_up then tick_up s (track_wifi s d) else tick_down s (track_wifi s d)
