-- ===== src/Watchdog/Blame.antt =====
-- wd_feeder.h: when the feeder gives up, and whom it names.
use opta_gateway_mt.Base.{false, ℕ, ◌/◌, ◌≤◌, ◌≡◌, subst, Bool, ◌↔◌, true, arith}
use opta_gateway_mt.Watchdog.{
  reset, Feeder, Who, main, plc, cloud, Culprit, kicked, budget, since_of, where_of, note_stall,
  over_budget, blame, feed,
}

-- Every thread is within its own budget.
abbrev pub AllAlive : ℕ → Feeder → Type 0
AllAlive now f = (who : Who) → since_of who now f ≤ budget who

-- A pass's bookkeeping leaves the beats, the sections and the marker alone.
record SameThreads (f g : Feeder) : Type 0 where
  main_beat : g.main_beat_ms ≡ f.main_beat_ms
  plc_beat : g.plc_beat_ms ≡ f.plc_beat_ms
  cloud_beat : g.cloud_beat_ms ≡ f.cloud_beat_ms
  main_at : g.where_main ≡ f.where_main
  plc_at : g.where_plc ≡ f.where_plc
  cloud_at : g.where_cloud ≡ f.where_cloud
  marker : g.marker_done ≡ f.marker_done

note_stall-SameThreads : (now : ℕ) (f : Feeder) → SameThreads f (note_stall now f)
unfolding note_stall
note_stall-SameThreads now f = record {
  main_beat = ground arith;
  plc_beat = ground arith;
  cloud_beat = ground arith;
  main_at = ground arith;
  plc_at = ground arith;
  cloud_at = ground arith;
  marker = ground arith;
}

over_budget-same :
    (now : ℕ) (f g : Feeder) → SameThreads f g → over_budget now g ≡ over_budget now f
unfolding over_budget
over_budget-same now f g e = rw (e.main_beat, e.plc_beat, e.cloud_beat)

blame-same : (now : ℕ) (f g : Feeder) → SameThreads f g → blame now g ≡ blame now f
unfolding blame
blame-same now f g e = rw (e.main_beat, e.plc_beat, e.cloud_beat, e.main_at, e.plc_at, e.cloud_at)

-- With the watchdog armed, a pass kicks it exactly when every thread is within its budget.
pub feed-kicked_iff : (now : ℕ) (f : Feeder) → ((feed now true f).1 ≡ kicked) ↔ AllAlive now f
unfolding feed over_budget
feed-kicked_iff now f = (to, from)
  where
    to : (feed now true f).1 ≡ kicked → AllAlive now f
    to h main = ground (arith, note_stall-SameThreads now f)
    to h plc = ground (arith, note_stall-SameThreads now f)
    to h cloud = ground (arith, note_stall-SameThreads now f)

    from : AllAlive now f → (feed now true f).1 ≡ kicked
    from alive = ground (arith, alive main, alive plc, alive cloud, note_stall-SameThreads now f)

-- The unit of the blame ratio: a thousandth of a budget.
abbrev pub unit : Who → ℕ
unit main = 60
unit plc = 60
unit cloud = 300

-- `c` names a thread by its section and the age of its beat, and no thread is further past its
-- own budget, in whole thousandths.
pub record IsWorst (now : ℕ) (f : Feeder) (c : Culprit) : Type 0 where
  pub section : c.at ≡ where_of c.who f
  pub age : c.since ≡ since_of c.who now f
  pub past : budget c.who ≤ c.since
  pub furthest : (who : Who) → since_of who now f / unit who ≤ c.since / unit c.who

max_main :
    (now : ℕ) (f : Feeder) → since_of main now f / 60 ≤ (blame now f).since / unit (blame now f).who
unfolding blame
max_main now f = ground arith

max_plc :
    (now : ℕ) (f : Feeder) → since_of plc now f / 60 ≤ (blame now f).since / unit (blame now f).who
unfolding blame
max_plc now f = ground arith

max_cloud :
    (now : ℕ) (f : Feeder)
    → since_of cloud now f / 300 ≤ (blame now f).since / unit (blame now f).who
unfolding blame
max_cloud now f = ground arith

blame-past :
    (now : ℕ) (f : Feeder)
    → over_budget now f ≡ true
    → budget (blame now f).who ≤ (blame now f).since
unfolding over_budget blame
blame-past now f h = ground arith

blame-IsWorst : (now : ℕ) (f : Feeder) → over_budget now f ≡ true → IsWorst now f (blame now f)
blame-IsWorst now f h = record {
  section = unfold blame where_of in ground arith;
  age = unfold blame in ground arith;
  past = blame-past now f h;
  furthest = elim [ main ↦ max_main now f | plc ↦ max_plc now f | cloud ↦ max_cloud now f ];
}

-- A pass that resets the board names in its marker the thread furthest past its own budget, which
-- has reached that budget; it is the first pass to give up, and the marker is not written again.
pub feed-reset_culprit :
    (now : ℕ) (f : Feeder) (running : Bool) {c : Culprit}
    → (feed now running f).1 ≡ reset c
    → IsWorst now f c × (f.marker_done ≡ false) × ((feed now running f).0.marker_done ≡ true)
unfolding feed
feed-reset_culprit now f running {c} h = (
  subst (IsWorst now f) named (blame-IsWorst now f over),
  ground (arith, note_stall-SameThreads now f),
  ground arith,
)
  where
    g : Feeder
    g = record (note_stall now f) { seen = true }

    kept : SameThreads f (note_stall now f)
    kept = note_stall-SameThreads now f

    same : SameThreads f g
    same = record {
      main_beat = kept.main_beat;
      plc_beat = kept.plc_beat;
      cloud_beat = kept.cloud_beat;
      main_at = kept.main_at;
      plc_at = kept.plc_at;
      cloud_at = kept.cloud_at;
      marker = kept.marker;
    }

    over : over_budget now f ≡ true
    over = ground (arith, over_budget-same now f g same)

    named : blame now f ≡ c
    named = ground (arith, blame-same now f g same)
