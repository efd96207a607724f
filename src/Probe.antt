-- ===== src/Probe.antt =====
-- cloud_probe.h: the knock on the broker before `ArduinoCloud.update()` may reconnect.
-- The network, the clock and the resolver are the answers in `Net`, one field for each read.
pub mod Knock
pub mod Gate
pub mod Rate
pub mod FailOpen
mod Examples
use opta_gateway_mt.Base.{
  ℕ, ◌+◌, Bool, true, false, not, ◌&&◌, ◌||◌, Option, none, some, ltb, leb, ◌==◌, if◌then◌else◌,
  sub32, inc32,
}

abbrev pub probe_period_ms : ℕ
probe_period_ms = 5000

abbrev pub dns_neg_cache_ms : ℕ
dns_neg_cache_ms = 60000

abbrev pub dns_ttl_ms : ℕ
dns_ttl_ms = 600000

abbrev pub fail_reresolve : ℕ
fail_reresolve = 3

abbrev pub failopen_after_ms : ℕ
failopen_after_ms = 60000

abbrev pub failopen_period_ms : ℕ
failopen_period_ms = 30000

-- The file's statics. A socket address is a number.
pub record Probe : Type 0 where
  pub broker_addr : ℕ
  pub broker_resolved : Bool
  pub broker_resolved_ms : ℕ
  pub fail_streak : ℕ
  pub fail_since : ℕ
  pub last_fail_open : ℕ
  pub fail_opens : ℕ
  pub reresolves : ℕ
  pub last_probe : ℕ
  pub last_ok : Bool
  pub last_ok_ms : ℕ
  pub oks : ℕ
  pub fails : ℕ
  pub dns_fail_ms : ℕ

unfoldable pub initial : Probe
initial = record {
  broker_addr = 0;
  broker_resolved = false;
  broker_resolved_ms = 0;
  fail_streak = 0;
  fail_since = 0;
  last_fail_open = 0;
  fail_opens = 0;
  reresolves = 0;
  last_probe = 0;
  last_ok = false;
  last_ok_ms = 0;
  oks = 0;
  fails = 0;
  dns_fail_ms = 0;
}

-- What one knock meets: a network interface or none, the clock at its reads, the resolver's
-- answer, whether a socket opens, and whether an address accepts (`NSAPI_ERROR_IS_CONNECTED`
-- counts).
pub record Net : Type 0 where
  pub present : Bool
  pub ms_stale : ℕ
  pub ms_cache : ℕ
  pub ms_answer : ℕ
  pub answer : Option ℕ
  pub opens : Bool
  pub accepts : ℕ → Bool

unfoldable pub is_stale : Net → Probe → Bool
is_stale net p =
    p.broker_resolved
    && (leb dns_ttl_ms (sub32 net.ms_stale p.broker_resolved_ms)
        || leb fail_reresolve p.fail_streak)

unfoldable pub neg_cached : Net → Probe → Bool
neg_cached net p =
    not (p.dns_fail_ms == 0) && ltb (sub32 net.ms_cache p.dns_fail_ms) dns_neg_cache_ms

-- The lookup's two branches.
unfoldable pub looked_up : Option ℕ → Bool → Net → Probe → Probe
looked_up none stale net p = record p { dns_fail_ms = net.ms_answer }
looked_up (some a) stale net p =
    let q : Probe = record p {
      broker_addr = a;
      broker_resolved = true;
      broker_resolved_ms = net.ms_answer;
      dns_fail_ms = 0;
    } in
    if stale then record q { reresolves = inc32 q.reresolves; fail_streak = 0 } else q

unfoldable pub resolve : Net → Probe → Probe
unfolding is_stale neg_cached looked_up
resolve net p =
    if (not p.broker_resolved || is_stale net p) && not (neg_cached net p)
    then looked_up net.answer (is_stale net p) net p
    else p

-- `cloudProbeOnce`.
unfoldable pub probe_once : Net → Probe → Probe × Bool
probe_once net p =
    if not net.present
    then (p, false)
    else let q = resolve net p in
      if not q.broker_resolved || not net.opens
      then (q, false)
      else if net.accepts q.broker_addr
      then (record q { fail_streak = 0 }, true)
      else (record q { fail_streak = inc32 q.fail_streak }, false)

abbrev pub is_knock_due : ℕ → Probe → Bool
is_knock_due now p = p.last_probe == 0 || leb probe_period_ms (sub32 now p.last_probe)

-- The rate-limited knock and its bookkeeping.
unfoldable pub knock : ℕ → Net → Probe → Probe
knock now net p =
    let (q, ok) = probe_once net (record p { last_probe = now }) in
    if ok
    then record q { last_ok = true; oks = inc32 q.oks; fail_since = 0; last_ok_ms = now }
    else record q {
      last_ok = false;
      fails = inc32 q.fails;
      fail_since = if q.fail_since == 0 then now else q.fail_since;
    }

abbrev pub is_failopen_due : ℕ → Probe → Bool
is_failopen_due now p =
    not (p.fail_since == 0)
    && leb failopen_after_ms (sub32 now p.fail_since)
    && leb failopen_period_ms (sub32 now p.last_fail_open)

-- `cloudUpdateAllowed`.
unfoldable pub update_allowed : Bool → Bool → ℕ → Net → Probe → Probe × Bool
update_allowed wifi_up true now net p = (record p { fail_since = 0; fail_streak = 0 }, true)
update_allowed false false now net p = (p, true)
update_allowed true false now net p =
    let q : Probe = if is_knock_due now p then knock now net p else p in
    if q.last_ok
    then (q, true)
    else if is_failopen_due now q
    then (record q { last_fail_open = now; fail_opens = inc32 q.fail_opens }, true)
    else (q, false)
