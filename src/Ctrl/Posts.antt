-- ===== src/Ctrl/Posts.antt =====
-- cloud_ctrl.h: what each callback needs before it puts a command into the queue.
use opta_gateway_mt.Base.{
  length-drop, ◌⊎◌, arith, ℕ, ◌≤◌, ◌<◌, ◌≡◌, Bool, true, false, [], ◌∷◌, ◌++◌, length,
}
use opta_gateway_mt.Base.Floats.{Floats}
use opta_gateway_mt.Base.Ints.{ℤ, pos, negsuc}
use opta_gateway_mt.Shared.{PlcSnapshot, CmdTag, Board, ctrl_write, cmd_post, cmd_take}
use opta_gateway_mt.Shared.Commands.{cmd_take-queue}
use opta_gateway_mt.Ctrl.{
  clamp, bool_value, Ctrl, on_sync, on_disconnect, disarm, is_quiet, ctrl_gate, ctrl_post,
  on_control_enabled, manual_hold_active, ctrl_bool, ctrl_minutes, ctrl_manual, ctrl_clear_fault,
  on_flow_reset_total,
}

-- What reaches the gate: the cloud's events, the callbacks with the values that the dashboard (or a
-- replay of stored values) gives them, a new snapshot, a question of the mirror, and the PLC thread
-- taking a command.
pub data Event (F : Type 0) : Type 0 where
  synced : ℕ → Event F
  disconnected : Event F
  master : ℕ → Bool → Event F
  switched : ℕ → CmdTag → Bool → Event F
  minutes : ℕ → CmdTag → ℤ → Event F
  manual : ℕ → CmdTag → Bool → Bool → Event F
  cleared : ℕ → CmdTag → Bool → Event F
  reset_total : ℕ → Bool → Event F
  snapshot : PlcSnapshot F → Event F
  mirrored : ℕ → ℕ → Event F
  taken : Event F

module _ (fl : Floats) where
  open fl use {F}

  unfoldable pub event : Event F → Ctrl F → Ctrl F
  event (synced now) c = on_sync now c
  event disconnected c = on_disconnect c
  event (master now on) c = on_control_enabled now on c
  event (switched now tag on) c = (ctrl_bool fl now tag on c).0
  event (minutes now tag v) c = (ctrl_minutes fl now tag v c).0
  event (manual now tag on actual) c = (ctrl_manual fl now tag on actual c).0
  event (cleared now tag on) c = (ctrl_clear_fault fl now tag on c).0
  event (reset_total now on) c = (on_flow_reset_total fl now on c).0
  event (snapshot w) c = record c { local = w }
  event (mirrored now stamp) c = (manual_hold_active now stamp c).0
  event taken c = record c { board = (cmd_take c.board).1 }

-- The clock of an event.
abbrev pub IsAt : {F : Type 0} → ℕ → Event F → Type 0
IsAt t (synced now) = now ≡ t
IsAt t (master now _) = now ≡ t
IsAt t (switched now _ _) = now ≡ t
IsAt t (minutes now _ _) = now ≡ t
IsAt t (manual now _ _ _) = now ≡ t
IsAt t (cleared now _ _) = now ≡ t
IsAt t (reset_total now _) = now ≡ t
IsAt t _ = Unit

abbrev pub is_reset_total : {F : Type 0} → Event F → Bool
is_reset_total (reset_total _ _) = true
is_reset_total _ = false

module _ {F : Type 0} where
  pub gate-pass :
      (now : ℕ) (c : Ctrl F)
      → (ctrl_gate now c).1 ≡ true
      → ((ctrl_gate now c).0 ≡ c)
        × (is_quiet now c ≡ false)
        × (c.ctrl_local.control_enabled ≡ true)
        × (c.local.plc_connected ≡ true)
  unfolding ctrl_gate
  gate-pass now c h = ground arith

  pub gate-board : (now : ℕ) (c : Ctrl F) → ((ctrl_gate now c).0.board ≡ c.board)
  unfolding ctrl_gate
  gate-board now c = ground arith

  gate-local : (now : ℕ) (c : Ctrl F) → (ctrl_gate now c).0.ctrl_local ≡ c.ctrl_local
  unfolding ctrl_gate
  gate-local now c = ground arith

  post-local :
      (tag : CmdTag) (is_bool : Bool) (value : F) (c : Ctrl F)
      → (ctrl_post tag is_bool value c).0.ctrl_local ≡ c.ctrl_local
  unfolding ctrl_post
  post-local tag is_bool value c = ground arith

  take-shrinks : (b : Board F) → length (cmd_take b).1.queue ≤ length b.queue
  take-shrinks b = rw (cmd_take-queue b).0 (omega (arith, length-drop 1 b.queue))

module _ (fl : Floats) where
  open fl use {F}

  -- A command reaches the queue only outside the quiet window that follows a connection, and, the
  -- reset of the water totals apart, only with the master switch on and the PLC connected.
  pub event-posts :
      (now : ℕ) (e : Event F) (c : Ctrl F)
      → IsAt now e
      → length c.board.queue < length (event fl e c).board.queue
      → (is_quiet now c ≡ false)
        × ((is_reset_total e ≡ true)
            ⊎ ((c.ctrl_local.control_enabled ≡ true) × (c.local.plc_connected ≡ true)))
  unfolding event
  event-posts now (synced t) c a h = unfold on_sync disarm ctrl_write in absurd (omega arith)
  event-posts now disconnected c a h =
      unfold on_disconnect disarm ctrl_write in absurd (omega arith)
  event-posts now (master t on) c a h =
      unfold on_control_enabled ctrl_write in absurd (ground arith)
  event-posts now (switched t tag on) c a h =
      unfold ctrl_bool in ground (arith, gate-pass t c, gate-board t c)
  event-posts now (minutes t tag v) c a h =
      unfold ctrl_minutes in ground (arith, gate-pass t c, gate-board t c)
  event-posts now (manual t tag on actual) c a h =
      unfold ctrl_manual in ground (arith, gate-pass t c, gate-board t c)
  event-posts now (cleared t tag on) c a h =
      unfold ctrl_clear_fault in ground (arith, gate-pass t c, gate-board t c)
  event-posts now (reset_total t on) c a h = unfold on_flow_reset_total in ground arith
  event-posts now (snapshot w) c a h = absurd (omega arith)
  event-posts now (mirrored t stamp) c a h = unfold manual_hold_active in absurd (ground arith)
  event-posts now taken c a h = absurd (omega (arith, take-shrinks c.board))

  -- Control is armed in one way: the master switch is turned on, outside the quiet window.
  pub event-arms :
      (now : ℕ) (e : Event F) (c : Ctrl F)
      → IsAt now e
      → c.ctrl_local.control_enabled ≡ false
      → (event fl e c).ctrl_local.control_enabled ≡ true
      → (e ≡ master now true) × (is_quiet now c ≡ false)
  unfolding event
  event-arms now (synced t) c a d h = unfold on_sync disarm in absurd (ground arith)
  event-arms now disconnected c a d h = unfold on_disconnect disarm in absurd (ground arith)
  event-arms now (master t on) c a d h = unfold on_control_enabled in ground arith
  event-arms now (switched t tag on) c a d h =
      unfold ctrl_bool in
      absurd
        (ground (arith, gate-local t c, post-local tag true (bool_value fl on) (ctrl_gate t c).0))
  event-arms now (minutes t tag v) c a d h =
      unfold ctrl_minutes in
      absurd (
        ground
          (arith, gate-local t c, post-local tag false (fl.of_ℕ (clamp 5 60 v)) (ctrl_gate t c).0))
  event-arms now (manual t tag on actual) c a d h =
      unfold ctrl_manual in
      absurd
        (ground (arith, gate-local t c, post-local tag true (bool_value fl on) (ctrl_gate t c).0))
  event-arms now (cleared t tag on) c a d h =
      unfold ctrl_clear_fault in
      absurd (ground (arith, gate-local t c, post-local tag true (fl.lit 1 1) (ctrl_gate t c).0))
  event-arms now (reset_total t on) c a d h =
      unfold on_flow_reset_total in
      absurd (ground (arith, post-local CmdTag.flow_reset_total true (fl.lit 1 1) c))
  event-arms now (snapshot w) c a d h = absurd (ground arith)
  event-arms now (mirrored t stamp) c a d h = unfold manual_hold_active in absurd (ground arith)
  event-arms now taken c a d h = absurd (ground arith)

  clamp-in : (v : ℤ) → (5 ≤ clamp 5 60 v) × (clamp 5 60 v ≤ 60)
  clamp-in (negsuc n) = (omega arith, omega arith)
  clamp-in (pos n) = ground arith

  -- A time that reaches the queue is between 5 and 60 minutes, whatever was asked for, and the
  -- dashboard is left showing the minutes that were sent.
  pub ctrl_minutes-posts :
      (now : ℕ) (tag : CmdTag) (asked : ℤ) (c : Ctrl F)
      → let (d, shown) = ctrl_minutes fl now tag asked c in
        length c.board.queue < length d.board.queue
        → (m : ℕ) × (5 ≤ m)
          × (m ≤ 60)
          × (shown ≡ pos m)
          × (d.board.queue
              ≡ c.board.queue ++ (record { tag = tag; is_bool = false; value = fl.of_ℕ m } ∷ []))
  unfolding ctrl_minutes ctrl_post cmd_post
  ctrl_minutes-posts now tag asked c h =
      let (lo, hi) = clamp-in asked in
      (
        clamp 5 60 asked,
        lo,
        hi,
        ground (arith, gate-pass now c, gate-board now c),
        ground (arith, gate-pass now c, gate-board now c),
      )
