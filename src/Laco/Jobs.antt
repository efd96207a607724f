-- ===== src/Laco/Jobs.antt =====
-- laco_doors.h: the two chambers' jobs exclude one another, and keep to their own sides.
use Prim.Native.String.{String}
use opta_gateway_mt.Base.{
  List, [], ◌∷◌, ℕ, ◌+◌, ◌≡◌, Bool, true, false, ◌&&◌, arith, Option, some, none,
}
use opta_gateway_mt.Base.Floats.{Floats}
use opta_gateway_mt.Shared.{PlcSnapshot}
use opta_gateway_mt.Laco.{
  Laco, JobStep, write_a, stagger, write_b, settle, Plc, write_side, drive, step_at, step, tick,
  abort, start, start_if, poll, tell, set_job, get_job, gate, is_busy, report_abort,
}

-- Never two chambers in motion, and each job on its own two sides.
pub record IsSound {F : Type 0} (l : Laco F) : Type 0 where
  pub one : l.top.active && l.bot.active ≡ false
  pub top_side : l.top.side_a ≡ 0
  pub bot_side : l.bot.side_a ≡ 2

module _ {F : Type 0} where
  -- What a step of one chamber leaves as it was.
  pub record Keeps (top : Bool) (l m : Laco F) : Type 0 where
    pub top_off : l.top.active ≡ false → m.top.active ≡ false
    pub bot_off : l.bot.active ≡ false → m.bot.active ≡ false
    pub top_side : m.top.side_a ≡ l.top.side_a
    pub bot_side : m.bot.side_a ≡ l.bot.side_a

  pub write_side-jobs :
      (plc : Plc) (now side : ℕ) (opening : Bool) (l : Laco F)
      → ((write_side plc now side opening l).0.top ≡ l.top)
        × ((write_side plc now side opening l).0.bot ≡ l.bot)
  unfolding write_side tell
  write_side-jobs plc now side opening l = ground arith

  drive-Keeps :
      (plc : Plc) (now : ℕ) (top : Bool) (side : ℕ) (next : JobStep) (l : Laco F)
      → (get_job top l).active ≡ true
      → Keeps top l (drive plc now top side next (get_job top l) l).0
  unfolding drive set_job
  drive-Keeps plc now true side next l a =
      ground (arith, write_side-jobs plc now side l.top.opening l)
  drive-Keeps plc now false side next l a =
      ground (arith, write_side-jobs plc now side l.bot.opening l)

  step_at-Keeps :
      (plc : Plc) (now : ℕ) (w : PlcSnapshot F) (top : Bool) (s : JobStep) (wrote : Bool)
      (l : Laco F)
      → (get_job top l).active ≡ true
      → Keeps top l (step_at plc now w top s (get_job top l) wrote l).0
  unfolding step_at set_job tell
  step_at-Keeps plc now w true write_a wrote l a =
      ground (arith, drive-Keeps plc now true l.top.side_a stagger l)
  step_at-Keeps plc now w false write_a wrote l a =
      ground (arith, drive-Keeps plc now false l.bot.side_a stagger l)
  step_at-Keeps plc now w true stagger wrote l a = ground arith
  step_at-Keeps plc now w false stagger wrote l a = ground arith
  step_at-Keeps plc now w true write_b wrote l a =
      ground (arith, drive-Keeps plc now true (l.top.side_a + 1) settle l)
  step_at-Keeps plc now w false write_b wrote l a =
      ground (arith, drive-Keeps plc now false (l.bot.side_a + 1) settle l)
  step_at-Keeps plc now w true settle wrote l a = ground arith
  step_at-Keeps plc now w false settle wrote l a = ground arith

  pub step-Keeps :
      (plc : Plc) (now : ℕ) (w : PlcSnapshot F) (top wrote : Bool) (l : Laco F)
      → Keeps top l (step plc now w top wrote l).0
  unfolding step
  step-Keeps plc now w true wrote l =
      ground (arith, step_at-Keeps plc now w true l.top.step wrote l)
  step-Keeps plc now w false wrote l =
      ground (arith, step_at-Keeps plc now w false l.bot.step wrote l)

  Keeps-IsSound : (top : Bool) (l m : Laco F) → Keeps top l m → IsSound l → IsSound m
  Keeps-IsSound top l m k h = ground arith

  report_abort-IsSound : (now : ℕ) (l : Laco F) → IsSound l → IsSound (report_abort now l)
  unfolding report_abort tell
  report_abort-IsSound now l h = ground arith

  tick-IsSound :
      (plc : Plc) (now : ℕ) (w : PlcSnapshot F) (l : Laco F)
      → IsSound l
      → IsSound (tick plc now w l).0
  unfolding tick
  tick-IsSound plc now w l h =
      let m = report_abort now l in
      let m1 = (step plc now w true false m).0 in
      let wrote = (step plc now w true false m).1 in
      Keeps-IsSound false m1 (step plc now w false wrote m1).0 (step-Keeps plc now w false wrote m1)
        (Keeps-IsSound true m m1 (step-Keeps plc now w true false m) (report_abort-IsSound now l h))

  abort-IsSound : (l : Laco F) → IsSound l → IsSound (abort l)
  unfolding abort
  abort-IsSound l h = ground arith

-- What the PLC thread does with the doors: a dashboard request, a tick with the PLC connected,
-- the poll of the command bits, and a lost link.
pub data Act (F : Type 0) : Type 0 where
  request : ℕ → PlcSnapshot F → Bool → Bool → Act F
  ticked : Plc → ℕ → PlcSnapshot F → Act F
  polled : (ℕ → F) → (ℕ → Bool) → Act F
  lost : Act F

module _ (fl : Floats) where
  open fl use {F}

  start_if-IsSound :
      (now : ℕ) (top opening : Bool) (why : Option String) (l : Laco F)
      → is_busy l ≡ false
      → IsSound l
      → IsSound (start_if fl now top opening why l).0
  unfolding start_if set_job tell
  start_if-IsSound now top opening (some why) l b h = ground arith
  start_if-IsSound now true opening none l b h = ground arith
  start_if-IsSound now false opening none l b h = ground arith

  start-IsSound :
      (now : ℕ) (w : PlcSnapshot F) (top opening : Bool) (l : Laco F)
      → IsSound l
      → IsSound (start fl now w top opening l).0
  unfolding start set_job tell
  start-IsSound now w true opening l h =
      ground (arith, start_if-IsSound now true opening (gate fl w true opening l) l)
  start-IsSound now w false opening l h =
      ground (arith, start_if-IsSound now false opening (gate fl w false opening l) l)

  unfoldable pub act : Act F → Laco F → Laco F
  act (request now w top opening) l = (start fl now w top opening l).0
  act (ticked plc now w) l = (tick plc now w l).0
  act (polled val ok) l = (poll fl val ok l).0
  act lost l = abort l

  unfoldable pub acts : List (Act F) → Laco F → Laco F
  acts [] l = l
  acts (a ∷ rest) l = acts rest (act a l)

  act-IsSound : (a : Act F) (l : Laco F) → IsSound l → IsSound (act a l)
  unfolding act
  act-IsSound (request now w top opening) l h = start-IsSound now w top opening l h
  act-IsSound (ticked plc now w) l h = tick-IsSound plc now w l h
  act-IsSound (polled val ok) l h = unfold poll in ground arith
  act-IsSound lost l h = abort-IsSound l h

  -- Whatever requests, ticks, polls and outages come in whatever order, the two chambers are never
  -- in motion together, and each job stays on the two sides of its own chamber.
  pub acts-IsSound : (rest : List (Act F)) (l : Laco F) → IsSound l → IsSound (acts rest l)
  unfolding acts
  acts-IsSound [] l h = h
  acts-IsSound (a ∷ rest) l h = acts-IsSound rest (act a l) (act-IsSound a l h)
