-- ===== src/Watchdog/Examples.antt =====
-- wd_feeder.h: the feeder on concrete clocks.
use opta_gateway_mt.Base.{◌↔◌, ◌≤◌, ◌≡◌, refl, true, false, [], ◌∷◌, arith}
use opta_gateway_mt.Watchdog.{
  Feeder, main, cloud, kicked, reset, feed, run, pass, stamp, since_of, note_stall, over_budget,
  blame, stall_window_max, Culprit,
}
use opta_gateway_mt.Watchdog.Blame.{AllAlive, IsWorst, feed-kicked_iff, feed-reset_culprit}
use opta_gateway_mt.Watchdog.Window.{stall_window_max-kept}

-- Main wedged at 61 s, the cloud thread 250 s into a legal reconnect.
abbrev wedged : Feeder
wedged = record {
  where_main = 1;
  where_plc = 6;
  where_cloud = 15;
  main_beat_ms = 439000;
  plc_beat_ms = 499000;
  cloud_beat_ms = 250000;
  stall_max_ms = 0;
  stall_where = 0;
  win_max_ms = 0;
  win_where = 0;
  prev_win_max_ms = 0;
  prev_win_where = 0;
  refusals = 0;
  seen = true;
  marker_done = false;
  win_start = 0;
}

abbrev wedged_main : Culprit
wedged_main = record { who = main; at = 1; since = 61000 }

wedged_blames_main : (feed 500000 true wedged).1 ≡ reset wedged_main
unfolding feed note_stall over_budget blame
wedged_blames_main = refl

feed-reset_culprit_example :
    IsWorst 500000 wedged wedged_main
    × (wedged.marker_done ≡ false)
    × ((feed 500000 true wedged).0.marker_done ≡ true)
unfolding feed note_stall over_budget blame
feed-reset_culprit_example = feed-reset_culprit 500000 wedged true refl

healthy : Feeder
healthy = record wedged { main_beat_ms = 500000 }

feed-kicked_iff_example : ((feed 500000 true wedged).1 ≡ kicked) ↔ AllAlive 500000 wedged
feed-kicked_iff_example = feed-kicked_iff 500000 wedged

-- Every thread beats again at once; half a minute later the 250 s are still shown.
stall_window_max-kept_example :
    since_of cloud 500000 wedged
    ≤ stall_window_max (
        run
          (stamp main 501000 ∷ stamp cloud 501000 ∷ pass 502000 true ∷ pass 530000 true ∷ [])
          (feed 500000 false wedged).0)
stall_window_max-kept_example =
    stall_window_max-kept cloud 500000 false
      (stamp main 501000 ∷ stamp cloud 501000 ∷ pass 502000 true ∷ pass 530000 true ∷ []) wedged
      (omega arith) (omega arith) (omega arith)
