-- ===== src/Probe/FailOpen.antt =====
-- cloud_probe.h: the fail-open clock over a run of passes that the gate holds back.
use opta_gateway_mt.Base.{ℕ, ◌<◌, ◌≡◌, false, List, [], ◌∷◌}
use opta_gateway_mt.Probe.{Probe, update_allowed}
use opta_gateway_mt.Probe.Rate.{Call, pass}

-- Every pass of the run is held back.
abbrev pub AllDenied : List Call → Probe → Type 0
AllDenied [] p = Unit
AllDenied (c ∷ cs) p =
    ((update_allowed c.wifi_up c.cloud_up c.now c.net p).1 ≡ false) × AllDenied cs (pass c p)

abbrev pub AllBefore : ℕ → List Call → Type 0
AllBefore limit [] = Unit
AllBefore limit (c ∷ cs) = (c.now < limit) × AllBefore limit cs
