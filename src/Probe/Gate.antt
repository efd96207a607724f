-- ===== src/Probe/Gate.antt =====
-- cloud_probe.h, `cloudUpdateAllowed`: which states the gate holds back, and for how long.
use opta_gateway_mt.Base.{ℕ, ◌<◌, ◌≡◌, ◌⊎◌, Bool, true, false, arith, sub32}
use opta_gateway_mt.Probe.{Probe, Net, update_allowed, failopen_after_ms, failopen_period_ms}

-- `update()` is held back only with WiFi up and the cloud down, after a refused knock, and then
-- only while the refusals are younger than a minute or the last fail-open younger than half one.
pub update_allowed-denied :
    (wifi_up cloud_up : Bool) (now : ℕ) (net : Net) (p : Probe)
    → (update_allowed wifi_up cloud_up now net p).1 ≡ false
    → let q = (update_allowed wifi_up cloud_up now net p).0 in
      (wifi_up ≡ true)
      × (cloud_up ≡ false)
      × (q.last_ok ≡ false)
      × ((q.fail_since ≡ 0)
          ⊎ ((sub32 now q.fail_since < failopen_after_ms)
              ⊎ (sub32 now q.last_fail_open < failopen_period_ms)))
unfolding update_allowed
update_allowed-denied wifi_up true now net p h = ground arith
update_allowed-denied false false now net p h = ground arith
update_allowed-denied true false now net p h = ground arith
