-- ===== src/Probe/Rate.antt =====
-- cloud_probe.h: how often the gate knocks, and how long it can hold the library back.
use opta_gateway_mt.Base.{
  ℕ, ◌+◌, ◌*◌, ◌-◌, ◌≤◌, ◌<◌, ◌≡◌, ◌≢◌, Bool, true, false, not, ◌&&◌, if◌then◌else◌, arith, List,
  [], ◌∷◌, word, ◌==◌,
}
use opta_gateway_mt.Probe.{
  Probe, Net, knock, probe_once, resolve, update_allowed, is_knock_due, probe_period_ms,
}

-- One pass of the cloud thread through the gate.
pub record Call : Type 0 where
  pub wifi_up : Bool
  pub cloud_up : Bool
  pub now : ℕ
  pub net : Net

abbrev pub pass : Call → Probe → Probe
pass c p = (update_allowed c.wifi_up c.cloud_up c.now c.net p).0

-- The clock does not run backwards and does not wrap.
abbrev pub Ordered : ℕ → List Call → Type 0
Ordered start [] = start < word
Ordered start (c ∷ cs) = (start ≤ c.now) × Ordered c.now cs

abbrev pub last_ms : ℕ → List Call → ℕ
last_ms start [] = start
last_ms start (c ∷ cs) = last_ms c.now cs

-- 1 if the pass knocks: the count of answered or that of refused knocks has moved.
abbrev pub knocks_at : Call → Probe → ℕ
knocks_at c p = let q = pass c p in if q.oks == p.oks && q.fails == p.fails then 0 else 1

unfoldable pub knocks : List Call → Probe → ℕ
knocks [] p = 0
knocks (c ∷ cs) p = knocks_at c p + knocks cs (pass c p)

-- The parts of the state that a knock's inner call leaves to the gate.
pub record SameGate (p q : Probe) : Type 0 where
  pub since : q.fail_since ≡ p.fail_since
  pub opened : q.last_fail_open ≡ p.last_fail_open
  pub probed : q.last_probe ≡ p.last_probe

resolve-SameGate : (net : Net) (p : Probe) → SameGate p (resolve net p)
unfolding resolve
resolve-SameGate net p = ground arith

pub probe_once-SameGate : (net : Net) (p : Probe) → SameGate p (probe_once net p).0
unfolding probe_once
probe_once-SameGate net p = ground (arith, resolve-SameGate net p)

knock-last_probe : (now : ℕ) (net : Net) (p : Probe) → (knock now net p).last_probe ≡ now
unfolding knock
knock-last_probe now net p = ground (arith, probe_once-SameGate net (record p { last_probe = now }))

pass-last_probe :
    (c : Call) (p : Probe)
    → (pass c p).last_probe
      ≡ (if c.wifi_up && (not c.cloud_up && is_knock_due c.now p) then c.now else p.last_probe)
unfolding update_allowed
pass-last_probe c p = step c.wifi_up c.cloud_up
  where
    step :
        (w u : Bool)
        → (update_allowed w u c.now c.net p).0.last_probe
          ≡ (if w && (not u && is_knock_due c.now p) then c.now else p.last_probe)
    step true true = ground arith
    step false true = ground arith
    step false false = ground arith
    step true false = ground (arith, knock-last_probe c.now c.net p)

last_ms-lt :
    (start : ℕ) (cs : List Call)
    → Ordered start cs
    → (start ≤ last_ms start cs) × (last_ms start cs < word)
last_ms-lt start [] o = omega arith
last_ms-lt start (c ∷ cs) o = omega (arith, last_ms-lt c.now cs o.1)

-- Only a pass that is due knocks.
knocks_at-due :
    (c : Call) (p : Probe)
    → knocks_at c p ≤ (if c.wifi_up && (not c.cloud_up && is_knock_due c.now p) then 1 else 0)
unfolding update_allowed
knocks_at-due c p = step c.wifi_up c.cloud_up
  where
    step :
        (w u : Bool)
        → let q = (update_allowed w u c.now c.net p).0 in
          (if q.oks == p.oks && q.fails == p.fails then 0 else 1)
          ≤ (if w && (not u && is_knock_due c.now p) then 1 else 0)
    step true true = ground arith
    step false true = ground arith
    step false false = ground arith
    step true false = ground arith

next_probe :
    (c : Call) (p : Probe)
    → p.last_probe ≤ c.now
    → c.now < word
    → p.last_probe ≢ 0
    → ((pass c p).last_probe ≢ 0)
      × ((pass c p).last_probe ≤ c.now)
      × (p.last_probe ≤ (pass c p).last_probe)
      × (knocks_at c p * probe_period_ms ≤ (pass c p).last_probe - p.last_probe)
next_probe c p k l h = ground (arith, knocks_at-due c p, pass-last_probe c p)

-- After a knock, the knocks of any later run of passes, as the gateway's counts of answered and
-- refused ones show them, are so far apart that their number times five seconds fits into the time
-- that has passed since. The clock does not wrap in the run.
pub knocks_bounded :
    (start : ℕ) (cs : List Call) (p : Probe)
    → p.last_probe ≢ 0
    → p.last_probe ≤ start
    → Ordered start cs
    → knocks cs p * probe_period_ms ≤ last_ms start cs - p.last_probe
unfolding knocks
knocks_bounded start [] p h k o = omega arith
knocks_bounded start (c ∷ cs) p h k o =
    let late = last_ms-lt c.now cs o.1 in
    let next = next_probe c p (omega (arith, o.0)) (omega (arith, late)) h in
    omega (arith, next, late, knocks_bounded c.now cs (pass c p) next.0 next.1 o.1)
