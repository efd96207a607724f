-- ===== src/Probe/Examples.antt =====
-- cloud_probe.h: the gate against a broker whose address has gone away.
use opta_gateway_mt.Base.{ℕ, ◌*◌, ◌-◌, ◌≤◌, ◌≡◌, refl, true, false, some, List, [], ◌∷◌, arith}
use opta_gateway_mt.Probe.{Probe, Net, probe_once, resolve, update_allowed, knock}
use opta_gateway_mt.Probe.Rate.{Call, knocks, knocks_bounded}

-- The resolver answers 7, and nothing accepts.
abbrev dead : Net
dead = record {
  present = true;
  ms_stale = 100000;
  ms_cache = 100000;
  ms_answer = 100000;
  answer = some 7;
  opens = true;
  accepts = λ _. false;
}

-- Address 3, resolved at 90 s, refused since then.
abbrev refused : Probe
refused = record {
  broker_addr = 3;
  broker_resolved = true;
  broker_resolved_ms = 90000;
  fail_streak = 1;
  fail_since = 95000;
  last_fail_open = 0;
  fail_opens = 0;
  reresolves = 0;
  last_probe = 95000;
  last_ok = false;
  last_ok_ms = 0;
  oks = 0;
  fails = 1;
  dns_fail_ms = 90000;
}

abbrev alive : Net
alive = record dead { accepts = λ a. true }

-- Refused for 5 s, let through 20 s ago.
abbrev shut : Probe
shut = record refused { last_fail_open = 80000 }

abbrev held : Probe
held = (update_allowed true false 100000 dead shut).0

abbrev offline : ℕ → Call
offline t = record { wifi_up = true; cloud_up = false; now = t; net = dead }

-- Passes at 96 s, 100 s, 103 s: one more knock.
abbrev passes : List Call
passes = offline 96000 ∷ offline 100000 ∷ offline 103000 ∷ []

passes_knock_once : knocks passes shut ≡ 1
unfolding knocks update_allowed knock probe_once resolve
passes_knock_once = refl

knocks_bounded_example : knocks passes shut * 5000 ≤ 103000 - 95000
knocks_bounded_example = knocks_bounded 96000 passes shut (omega arith) (omega arith) (omega arith)
