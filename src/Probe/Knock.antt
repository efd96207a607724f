-- ===== src/Probe/Knock.antt =====
-- cloud_probe.h, `cloudProbeOnce`: the cached address and the resolver.
use opta_gateway_mt.Base.{ℕ, ◌≤◌, ◌<◌, ◌≡◌, ◌≢◌, ◌⊎◌, true, Option, some, arith, sub32}
use opta_gateway_mt.Probe.{
  Probe, Net, resolve, probe_once, dns_ttl_ms, dns_neg_cache_ms, fail_reresolve,
}

-- A failed lookup, or none at all, never throws a resolved address away, and a lookup that
-- answers replaces it only if it had expired or was refused three times in a row.
pub probe_once-keeps_address :
    (net : Net) (p : Probe)
    → p.broker_resolved ≡ true
    → let q = (probe_once net p).0 in
      (q.broker_resolved ≡ true)
      × ((q.broker_addr ≡ p.broker_addr)
          ⊎ ((net.answer ≡ some q.broker_addr)
              × ((dns_ttl_ms ≤ sub32 net.ms_stale p.broker_resolved_ms)
                  ⊎ (fail_reresolve ≤ p.fail_streak))))
unfolding probe_once resolve
probe_once-keeps_address net p h = ground arith

-- Within a minute of a failed lookup the resolver is not asked: its answer makes no difference.
pub probe_once_neg_cached :
    (net : Net) (p : Probe) (answer : Option ℕ)
    → p.dns_fail_ms ≢ 0
    → sub32 net.ms_cache p.dns_fail_ms < dns_neg_cache_ms
    → probe_once (record net { answer = answer }) p ≡ probe_once net p
unfolding probe_once resolve
probe_once_neg_cached net p answer h near = ground arith

-- A knock succeeds only at an address that the resolver has given and that accepts.
pub probe_once-accepts :
    (net : Net) (p : Probe)
    → (probe_once net p).1 ≡ true
    → let q = (probe_once net p).0 in
      (net.present ≡ true)
      × (net.opens ≡ true)
      × (q.broker_resolved ≡ true)
      × (net.accepts q.broker_addr ≡ true)
      × (q.fail_streak ≡ 0)
unfolding probe_once
probe_once-accepts net p h = ground arith
