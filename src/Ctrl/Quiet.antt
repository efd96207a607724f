-- ===== src/Ctrl/Quiet.antt =====
-- cloud_ctrl.h: replayed values never reach the PLC.
use opta_gateway_mt.Base.{
  subst, refl, arith, ℕ, ◌<◌, ◌≡◌, ap, sym, ◌∙◌, true, false, List, [], ◌∷◌, drop, sub32,
}
use opta_gateway_mt.Base.Floats.{Floats}
use opta_gateway_mt.Shared.{Cmd, ctrl_write}
use opta_gateway_mt.Shared.Commands.{cmd_take-queue}
use opta_gateway_mt.Ctrl.{
  Ctrl, sync_quiet_ms, on_sync, on_disconnect, disarm, is_quiet, ctrl_gate, on_control_enabled,
  manual_hold_active, ctrl_bool, ctrl_minutes, ctrl_manual, ctrl_clear_fault, on_flow_reset_total,
}
use opta_gateway_mt.Ctrl.Posts.{
  Event, synced, disconnected, master, switched, minutes, manual, cleared, reset_total, snapshot,
  mirrored, taken, event,
}

-- Master control is off, and the PLC thread reads it so.
pub record IsDisarmed {F : Type 0} (c : Ctrl F) : Type 0 where
  pub here : c.ctrl_local.control_enabled ≡ false
  pub there : c.board.ctrl.control_enabled ≡ false

-- Quiet at the clock of an event that reads it.
abbrev pub IsHeld : {F : Type 0} → Ctrl F → Event F → Type 0
IsHeld c (synced now) = ⊥
IsHeld c (master now _) = is_quiet now c ≡ true
IsHeld c (switched now _ _) = is_quiet now c ≡ true
IsHeld c (minutes now _ _) = is_quiet now c ≡ true
IsHeld c (manual now _ _ _) = is_quiet now c ≡ true
IsHeld c (cleared now _ _) = is_quiet now c ≡ true
IsHeld c (reset_total now _) = is_quiet now c ≡ true
IsHeld c _ = Unit

-- The queue as only the PLC thread changes it.
abbrev pub left_after : {F : Type 0} → Event F → List (Cmd F) → List (Cmd F)
left_after taken q = drop 1 q
left_after _ q = q

unfoldable pub left_by : {F : Type 0} → List (Event F) → List (Cmd F) → List (Cmd F)
left_by [] q = q
left_by (e ∷ es) q = left_by es (left_after e q)

module _ {F : Type 0} where
  gate-quiet :
      (now : ℕ) (c : Ctrl F)
      → is_quiet now c ≡ true
      → let d = (ctrl_gate now c).0 in
        ((ctrl_gate now c).1 ≡ false)
        × (d.ctrl_local ≡ c.ctrl_local)
        × (d.board ≡ c.board)
        × (d.sync_seen ≡ c.sync_seen)
        × (d.sync_ms ≡ c.sync_ms)
  unfolding ctrl_gate
  gate-quiet now c h = ground arith

module _ (fl : Floats) where
  open fl use {F}

  unfoldable pub events : List (Event F) → Ctrl F → Ctrl F
  events [] c = c
  events (e ∷ es) c = events es (event fl e c)

  record Stays (c d : Ctrl F) (e : Event F) : Type 0 where
    pub disarmed : IsDisarmed d
    pub queue : d.board.queue ≡ left_after e c.board.queue
    pub seen : d.sync_seen ≡ true → c.sync_seen ≡ true
    pub since : d.sync_ms ≡ c.sync_ms

  event-Stays : (e : Event F) (c : Ctrl F) → IsDisarmed c → IsHeld c e → Stays c (event fl e c) e
  unfolding event
  event-Stays (synced t) c d h = absurd h
  event-Stays disconnected c d h = unfold on_disconnect disarm ctrl_write in ground arith
  event-Stays (master t on) c d h = unfold on_control_enabled in ground arith
  event-Stays (switched t tag on) c d h = unfold ctrl_bool in ground (arith, gate-quiet t c)
  event-Stays (minutes t tag v) c d h = unfold ctrl_minutes in ground (arith, gate-quiet t c)
  event-Stays (manual t tag on actual) c d h = unfold ctrl_manual in ground (arith, gate-quiet t c)
  event-Stays (cleared t tag on) c d h = unfold ctrl_clear_fault in ground (arith, gate-quiet t c)
  event-Stays (reset_total t on) c d h = unfold on_flow_reset_total in ground arith
  event-Stays (snapshot w) c d h = ground arith
  event-Stays (mirrored t stamp) c d h = unfold manual_hold_active in ground arith
  event-Stays taken c d h = ground (arith, cmd_take-queue c.board)

-- No SYNC among the events.
abbrev pub NoSync : {F : Type 0} → List (Event F) → Type 0
NoSync [] = Unit
NoSync (synced _ ∷ es) = ⊥
NoSync (_ ∷ es) = NoSync es

-- No SYNC among the events, and the clock of each within the quiet window of `t`.
abbrev pub IsSoon : {F : Type 0} → ℕ → Event F → Type 0
IsSoon t (synced now) = ⊥
IsSoon t (master now _) = sub32 now t < sync_quiet_ms
IsSoon t (switched now _ _) = sub32 now t < sync_quiet_ms
IsSoon t (minutes now _ _) = sub32 now t < sync_quiet_ms
IsSoon t (manual now _ _ _) = sub32 now t < sync_quiet_ms
IsSoon t (cleared now _ _) = sub32 now t < sync_quiet_ms
IsSoon t (reset_total now _) = sub32 now t < sync_quiet_ms
IsSoon t _ = Unit

abbrev pub AllSoon : {F : Type 0} → ℕ → List (Event F) → Type 0
AllSoon t [] = Unit
AllSoon t (e ∷ es) = IsSoon t e × AllSoon t es

module _ {F : Type 0} where
  unseen-IsHeld :
      (e : Event F) (es : List (Event F)) (c : Ctrl F)
      → c.sync_seen ≡ false
      → NoSync (e ∷ es)
      → IsHeld c e × NoSync es
  unfolding is_quiet
  unseen-IsHeld (synced t) es c s n = absurd n
  unseen-IsHeld disconnected es c s n = (tt, n)
  unseen-IsHeld (master t on) es c s n = (ground arith, n)
  unseen-IsHeld (switched t tag on) es c s n = (ground arith, n)
  unseen-IsHeld (minutes t tag v) es c s n = (ground arith, n)
  unseen-IsHeld (manual t tag on actual) es c s n = (ground arith, n)
  unseen-IsHeld (cleared t tag on) es c s n = (ground arith, n)
  unseen-IsHeld (reset_total t on) es c s n = (ground arith, n)
  unseen-IsHeld (snapshot w) es c s n = (tt, n)
  unseen-IsHeld (mirrored t stamp) es c s n = (tt, n)
  unseen-IsHeld taken es c s n = (tt, n)

  soon-IsHeld : (e : Event F) (c : Ctrl F) → IsSoon c.sync_ms e → IsHeld c e
  unfolding is_quiet
  soon-IsHeld (synced t) c n = n
  soon-IsHeld disconnected c n = tt
  soon-IsHeld (master t on) c n = ground arith
  soon-IsHeld (switched t tag on) c n = ground arith
  soon-IsHeld (minutes t tag v) c n = ground arith
  soon-IsHeld (manual t tag on actual) c n = ground arith
  soon-IsHeld (cleared t tag on) c n = ground arith
  soon-IsHeld (reset_total t on) c n = ground arith
  soon-IsHeld (snapshot w) c n = tt
  soon-IsHeld (mirrored t stamp) c n = tt
  soon-IsHeld taken c n = tt

module _ (fl : Floats) where
  open fl use {F}

  unseen-events :
      (es : List (Event F)) (c : Ctrl F)
      → IsDisarmed c
      → c.sync_seen ≡ false
      → NoSync es
      → IsDisarmed (events fl es c) × ((events fl es c).board.queue ≡ left_by es c.board.queue)
  unfolding events left_by
  unseen-events [] c d s n = (d, refl)
  unseen-events (e ∷ es) c d s n =
      let (held, rest) = unseen-IsHeld e es c s n in
      let stays = event-Stays fl e c d held in
      let (d2, q) =
        unseen-events es (event fl e c) stays.disarmed (ground (arith, stays.seen)) rest in
      (d2, q ∙ ap (left_by es) stays.queue)

  soon-events :
      (es : List (Event F)) (c : Ctrl F)
      → IsDisarmed c
      → AllSoon c.sync_ms es
      → IsDisarmed (events fl es c) × ((events fl es c).board.queue ≡ left_by es c.board.queue)
  unfolding events left_by
  soon-events [] c d n = (d, refl)
  soon-events (e ∷ es) c d n =
      let stays = event-Stays fl e c d (soon-IsHeld e c n.0) in
      let (d2, q) =
        soon-events es (event fl e c) stays.disarmed
          (subst (λ t. AllSoon t es) (sym stays.since) n.1) in
      (d2, q ∙ ap (left_by es) stays.queue)

  -- After the cloud connection is lost, and until the next SYNC, nothing that the dashboard or a
  -- replay of its stored values does reaches the queue, which only the PLC thread empties, and
  -- control stays disarmed on both sides.
  pub disconnect-unposted :
      (es : List (Event F)) (c : Ctrl F)
      → NoSync es
      → let d = events fl es (on_disconnect c) in
        IsDisarmed d × (d.board.queue ≡ left_by es c.board.queue)
  disconnect-unposted es c n =
      unfold on_disconnect disarm ctrl_write in
      unseen-events es (on_disconnect c) (record { here = refl; there = refl }) refl n

  -- In the 15 seconds after a SYNC nothing reaches the queue either, the flip of the master switch
  -- included, and control stays disarmed on both sides.
  pub sync-unposted :
      (es : List (Event F)) (t : ℕ) (c : Ctrl F)
      → AllSoon t es
      → let d = events fl es (on_sync t c) in
        IsDisarmed d × (d.board.queue ≡ left_by es c.board.queue)
  sync-unposted es t c n =
      unfold on_sync disarm ctrl_write in
      soon-events es (on_sync t c) (record { here = refl; there = refl }) n
