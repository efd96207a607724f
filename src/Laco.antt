-- ===== src/Laco.antt =====
-- laco_doors.h: the two LACO chamber doors, commanded through the PLC. A switch moves both sides of
-- a chamber, side A first and side B after a pause. `Said.last_error` is the snapshot's `lastError`,
-- and the one clock reading of a call stands for its reads of `millis()`.
pub mod Jobs
pub mod Stagger
pub mod Gates
mod Examples
use Prim.Native.String.{String, ◌++◌ as ◌<>◌}
use opta_gateway_mt.Base.{
  ℕ, ◌+◌, ◌*◌, Bool, true, false, not, ◌&&◌, ◌||◌, List, [], ◌∷◌, ◌++◌, ltb, leb, ◌==◌,
  if◌then◌else◌, add32, is_past, get_or, Option, none, some,
}
use opta_gateway_mt.Base.Floats.{Floats}
use opta_gateway_mt.Shared.{DoorState, PlcSnapshot}
use opta_gateway_mt.Say.{Said, say}

abbrev pub stagger_ms : ℕ
stagger_ms = 10000

abbrev pub settle_ms : ℕ
settle_ms = 30000

-- `LACO_TAGS`: side `s` has its clamps at 2s and its door at 2s + 1; air and link follow.
abbrev pub laco_tags : List String
laco_tags =
    "LACO.TopA.Cmd_ClampsOpen" ∷ "LACO.TopA.Cmd_DoorOpen" ∷ "LACO.TopB.Cmd_ClampsOpen"
    ∷ "LACO.TopB.Cmd_DoorOpen" ∷ "LACO.BotA.Cmd_ClampsOpen" ∷ "LACO.BotA.Cmd_DoorOpen"
    ∷ "LACO.BotB.Cmd_ClampsOpen" ∷ "LACO.BotB.Cmd_DoorOpen" ∷ "LACO.Air_OK" ∷ "LACO.Comm_OK" ∷ []

abbrev pub tag_name : ℕ → String
tag_name i = get_or laco_tags i ""

abbrev pub side_name : ℕ → String
side_name i = get_or ("TA" ∷ "TB" ∷ "BA" ∷ "BB" ∷ []) i ""

abbrev pub air_slot : ℕ
air_slot = 8

abbrev pub comm_slot : ℕ
comm_slot = 9

pub data JobStep : Type 0 where
  write_a stagger write_b settle : JobStep

-- `LacoJob`. Its `step` is only ever 0 to 3.
pub record Job : Type 0 where
  pub active : Bool
  pub opening : Bool
  pub step : JobStep
  pub at_ms : ℕ
  pub side_a : ℕ

-- One `eip.writeBool` and whether the PLC took it.
pub record Write : Type 0 where
  pub tag : ℕ
  pub value : Bool
  pub taken : Bool

-- The file's statics, the text latch, and the log of writes.
pub record Laco (F : Type 0) : Type 0 where
  pub top : Job
  pub bot : Job
  pub val : ℕ → F
  pub val_ok : ℕ → Bool
  pub seen : Bool
  pub aborted : Bool
  pub said : Said
  pub writes : List Write

-- Which writes the PLC takes in a tick.
abbrev pub Plc : Type 0
Plc = ℕ → Bool → Bool

abbrev pub same : Bool → Bool → Bool
same true b = b
same false b = not b

-- `enum DoorState`.
abbrev pub door_code : DoorState → ℕ
door_code DoorState.unknown = 0
door_code DoorState.shut = 1
door_code DoorState.open_ = 2
door_code DoorState.mid = 3
door_code DoorState.conflict = 4

abbrev pub who_name : Bool → String
who_name top = if top then "top" else "bottom"

-- The verdict of step 3, from the door limit pairs.
unfoldable pub verdict : Bool → Bool → ℕ → DoorState → DoorState → String
verdict top opening side_a a b =
    let want = if opening then door_code DoorState.open_ else door_code DoorState.shut in
    if door_code a == 0 || door_code b == 0
    then who_name top <> " doors: no limit reading"
    else if door_code a == 4 || door_code b == 4
    then who_name top <> " doors: limit sensors conflict"
    else if door_code a == want && door_code b == want
    then (if opening then who_name top <> " doors open" else who_name top <> " doors shut")
    else if not (door_code a == want) && not (door_code b == want)
    then who_name top <> " doors did not move"
    else (who_name top <> ": ")
      <> (side_name (if door_code a == want then side_a + 1 else side_a) <> " did not move")

module _ {F : Type 0} where
  unfoldable pub tell : ℕ → String → Laco F → Laco F
  tell now t l = record l { said = say now t l.said }

  abbrev pub log_write : ℕ → Bool → Bool → Laco F → Laco F
  log_write tag value taken l = record l {
    writes = l.writes ++ (record { tag = tag; value = value; taken = taken } ∷ []);
  }

  -- `lacoWriteSide`: clamps, then door; a refused door puts the clamps back.
  unfoldable pub write_side : Plc → ℕ → ℕ → Bool → Laco F → Laco F × Bool
  write_side plc now side opening l =
      let clamps = 2 * side in
      let door = 2 * side + 1 in
      let ok_c = plc clamps opening in
      let l1 = log_write clamps opening ok_c l in
      if not ok_c
      then (tell now (("write " <> tag_name clamps) <> " failed") l1, false)
      else let ok_d = plc door opening in
        let l2 = log_write door opening ok_d l1 in
        if not ok_d
        then (
          tell now (("write " <> tag_name door) <> " failed")
              (log_write clamps (not opening) (plc clamps (not opening)) l2),
          false,
        )
        else (l2, true)

  abbrev pub get_job : Bool → Laco F → Job
  get_job top l = if top then l.top else l.bot

  unfoldable pub set_job : Bool → Job → Laco F → Laco F
  set_job true j l = record l { top = j }
  set_job false j l = record l { bot = j }

  abbrev pub is_busy : Laco F → Bool
  is_busy l = l.top.active || l.bot.active

  -- `lacoAbort`.
  unfoldable pub abort : Laco F → Laco F
  abort l = record l {
    aborted = if is_busy l then true else l.aborted;
    top = record (l.top) { active = false };
    bot = record (l.bot) { active = false };
    seen = false;
  }

  -- One write of a side, and the job's next step if both tags took it.
  unfoldable pub drive : Plc → ℕ → Bool → ℕ → JobStep → Job → Laco F → Laco F × Bool
  drive plc now top side next j l =
      let (l1, done) = write_side plc now side j.opening l in
      if done
      then (set_job top (record j { step = next; at_ms = now }) l1, true)
      else (set_job top (record j { active = false }) l1, false)

  -- `lacoStep`, by the job's step; the flag is `wroteThisTick`.
  unfoldable pub step_at :
      Plc → ℕ → PlcSnapshot F → Bool → JobStep → Job → Bool → Laco F → Laco F × Bool
  step_at plc now w top write_a j wrote l =
      if wrote
      then (l, wrote)
      else if j.opening && not (w.action_word == 0)
      then (
        set_job top (record j { active = false }) (tell now "laco: cycle started, cancelled" l),
        wrote,
      )
      else drive plc now top j.side_a stagger j l
  step_at plc now w top stagger j wrote l =
      if is_past now (add32 j.at_ms stagger_ms)
      then (set_job top (record j { step = write_b }) l, wrote)
      else (l, wrote)
  step_at plc now w top write_b j wrote l =
      if wrote
      then (l, wrote)
      else if j.opening && not (w.action_word == 0)
      then (
        set_job top (record j { active = false }) (tell now "laco: cycle started, cancelled" l),
        wrote,
      )
      else drive plc now top (j.side_a + 1) settle j l
  step_at plc now w top settle j wrote l =
      if is_past now (add32 j.at_ms settle_ms)
      then (
        tell now
            (verdict top j.opening j.side_a (w.door_state j.side_a) (w.door_state (j.side_a + 1)))
            (set_job top (record j { active = false }) l),
        wrote,
      )
      else (l, wrote)

  unfoldable pub step : Plc → ℕ → PlcSnapshot F → Bool → Bool → Laco F → Laco F × Bool
  step plc now w top wrote l =
      let j = get_job top l in
      if j.active then step_at plc now w top j.step j wrote l else (l, wrote)

  unfoldable pub report_abort : ℕ → Laco F → Laco F
  report_abort now l =
      if l.aborted
      then tell now "laco: aborted, doors mid-travel" (record l { aborted = false })
      else l

  -- `lacoTick`; the result's number is `lacoJobs`.
  unfoldable pub tick : Plc → ℕ → PlcSnapshot F → Laco F → Laco F × ℕ
  tick plc now w l =
      let (l1, wrote) = step plc now w true false (report_abort now l) in
      let (l2, _) = step plc now w false wrote l1 in
      (l2, (if l2.top.active then 1 else 0) + (if l2.bot.active then 2 else 0))

-- The parts that compare analog values.
module _ (fl : Floats) where
  open fl use {F, lit, lt}

  abbrev pub is_on : F → Bool
  is_on x = lt (lit 1 2) x

  unfoldable pub air_ok : Laco F → Bool
  air_ok l = l.val_ok air_slot && is_on (l.val air_slot)

  unfoldable pub comm_ok : Laco F → Bool
  comm_ok l = l.val_ok comm_slot && is_on (l.val comm_slot)

  abbrev pub shown : Laco F → ℕ → String
  shown l i = if l.val_ok i then (if is_on (l.val i) then "1" else "0") else "-"

  abbrev pub shown_side : Laco F → ℕ → String
  shown_side l k = ((" " <> side_name k) <> ":") <> (shown l (2 * k) <> shown l (2 * k + 1))

  abbrev pub is_absent : (ℕ → Bool) → Bool
  is_absent ok =
      not (ok 0)
      && not (ok 1)
      && not (ok 2)
      && not (ok 3)
      && not (ok 4)
      && not (ok 5)
      && not (ok 6)
      && not (ok 7)
      && not (ok 8)
      && not (ok 9)

  -- `lacoPoll`: the ten values just read, and the text of `lacoStat`.
  unfoldable pub poll : (ℕ → F) → (ℕ → Bool) → Laco F → Laco F × String
  poll val val_ok l =
      let l1 : Laco F = record l { val = val; val_ok = val_ok; seen = true } in
      if is_absent val_ok then (l1, "LACO program not in the PLC") else (
        l1,
        ((("air:" <> shown l1 air_slot) <> " comm:") <> shown l1 comm_slot)
            <> ((shown_side l1 0 <> shown_side l1 1) <> (shown_side l1 2 <> shown_side l1 3)),
      )

  -- `lacoGate`: the reason for a refusal, or none.
  unfoldable pub gate : PlcSnapshot F → Bool → Bool → Laco F → Option String
  unfolding air_ok comm_ok
  gate w top opening l =
      let slot = if top then 13 else 14 in
      if not (w.action_word == 0)
      then some "laco: cycle running"
      else if not l.seen
      then some "laco: not polled yet"
      else if not (comm_ok l)
      then some "laco: plc link to LACO down"
      else if not opening
      then none
      else if not (air_ok l)
      then some "laco: control air low"
      else if not (w.ok slot)
      then some "laco: chamber pressure unread"
      else if lt (w.sensor slot) (lit 900 1)
      then some "laco: chamber not vented"
      else none

  unfoldable pub start_if : ℕ → Bool → Bool → Option String → Laco F → Laco F × Bool
  start_if now top opening (some why) l = (tell now why l, false)
  start_if now top opening none l = (
    tell now (who_name top <> (if opening then " doors opening" else " doors closing")) (
        set_job top
          (record (get_job top l) { active = true; opening = opening; step = write_a; at_ms = now })
          l),
    true,
  )

  -- `lacoStart`.
  unfoldable pub start : ℕ → PlcSnapshot F → Bool → Bool → Laco F → Laco F × Bool
  start now w top opening l =
      let j = get_job top l in
      if j.active && not (same j.opening opening)
      then (
        tell now
            (who_name top
              <> (if opening then " doors: reversing to open" else " doors: reversing to close"))
            (set_job top (record j { opening = opening; step = write_a; at_ms = now }) l),
        true,
      )
      else if j.active
      then (tell now "laco: already moving that way" l, false)
      else if is_busy l
      then (tell now "laco: other chamber moving" l, false)
      else start_if now top opening (gate w top opening l) l
