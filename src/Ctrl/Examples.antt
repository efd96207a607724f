-- ===== src/Ctrl/Examples.antt =====
-- cloud_ctrl.h: a dashboard that replays its stored values, and an operator.
use opta_gateway_mt.Base.{◌*◌, ℕ, ◌≤◌, ◌≡◌, ◌⊎◌, true, false, [], ◌∷◌, ◌++◌, List, refl, arith}
use opta_gateway_mt.Base.Ints.{pos}
use opta_gateway_mt.Base.Thousandths.{thousandths}
use opta_gateway_mt.Shared.{CmdTag, cmd_post}
use opta_gateway_mt.Shared.Samples.{blank, board}
use opta_gateway_mt.Ctrl.{
  Ctrl, on_sync, on_disconnect, is_quiet, ctrl_gate, ctrl_post, ctrl_bool, ctrl_minutes,
  on_control_enabled,
}
use opta_gateway_mt.Ctrl.Posts.{
  Event, master, switched, minutes, event, is_reset_total, event-posts, event-arms,
  ctrl_minutes-posts,
}
use opta_gateway_mt.Ctrl.Quiet.{events, IsDisarmed, left_by, disconnect-unposted, sync-unposted}

-- Armed since long ago.
abbrev armed : Ctrl ℕ
armed = record {
  sync_seen = true;
  sync_ms = 1000;
  ctrl_local = record { control_enabled = true; flow_rate = 0; flow_batch = 0 };
  hold_set = false;
  post_ms = 0;
  master = true;
  last_error = "ok";
  noted = "ok";
  local = blank;
  board = board;
}

abbrev press : Event ℕ
press = switched 60000 CmdTag.start_button true

event-posts_example :
    (is_quiet 60000 armed ≡ false)
    × ((is_reset_total press ≡ true)
        ⊎ ((armed.ctrl_local.control_enabled ≡ true) × (armed.local.plc_connected ≡ true)))
unfolding event ctrl_bool ctrl_gate ctrl_post cmd_post is_quiet
event-posts_example = event-posts thousandths 60000 press armed refl (omega arith)

abbrev safe : Ctrl ℕ
safe = record armed {
  ctrl_local = record { control_enabled = false; flow_rate = 0; flow_batch = 0 };
}

abbrev flip : Event ℕ
flip = master 60000 true

event-arms_example : (flip ≡ flip) × (is_quiet 60000 safe ≡ false)
unfolding event on_control_enabled is_quiet
event-arms_example = event-arms thousandths 60000 flip safe refl refl refl

ctrl_minutes-posts_example :
    let (d, shown) = ctrl_minutes thousandths 60000 CmdTag.adsorp_time_ms (pos 90) armed in
    (m : ℕ) × (5 ≤ m)
    × (m ≤ 60)
    × (shown ≡ pos m)
    × (d.board.queue
        ≡ [] ++ (record { tag = CmdTag.adsorp_time_ms; is_bool = false; value = m * 1000 } ∷ []))
unfolding ctrl_minutes ctrl_gate ctrl_post cmd_post is_quiet
ctrl_minutes-posts_example =
    ctrl_minutes-posts thousandths 60000 CmdTag.adsorp_time_ms (pos 90) armed (omega arith)

abbrev replay : List (Event ℕ)
replay =
    master 2000 true
    ∷ switched 2001 CmdTag.start_button true
    ∷ minutes 2002 CmdTag.desorp_time_ms (pos 7)
    ∷ []

disconnect-unposted_example :
    let d = events thousandths replay (on_disconnect armed) in
    IsDisarmed d × (d.board.queue ≡ left_by replay [])
disconnect-unposted_example = disconnect-unposted thousandths replay armed tt

sync-unposted_example :
    let d = events thousandths replay (on_sync 1500 armed) in
    IsDisarmed d × (d.board.queue ≡ left_by replay [])
sync-unposted_example =
    sync-unposted thousandths replay 1500 armed (omega arith, (omega arith, (omega arith, tt)))
