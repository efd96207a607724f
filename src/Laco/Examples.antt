-- ===== src/Laco/Examples.antt =====
-- laco_doors.h: the doors on concrete values.
use opta_gateway_mt.Base.{ℕ, ◌∷◌, [], true, false, ◌≡◌, ◌⊎◌, refl}
use opta_gateway_mt.Shared.{PlcSnapshot, DoorState}
use opta_gateway_mt.Laco.{
  Laco, Job, Plc, write_a, stagger, start, start_if, gate, air_ok, comm_ok, is_busy, tick, get_job,
}
use opta_gateway_mt.Base.Thousandths.{thousandths}
use opta_gateway_mt.Shared.Samples.{blank}
use opta_gateway_mt.Laco.Jobs.{IsSound, request, ticked, acts, acts-IsSound}
use opta_gateway_mt.Laco.Gates.{MayOpen, start-opens}
use opta_gateway_mt.Laco.Stagger.{Beat, due_side, WroteOnly, tick-WroteOnly}

-- Chambers vented, no cycle, limits open.
abbrev vented : PlcSnapshot ℕ
vented = record blank { sensor = λ _. 1000000; ok = λ _. true; door_state = λ _. DoorState.open_ }

abbrev idle_job : ℕ → Job
idle_job a = record { active = false; opening = false; step = write_a; at_ms = 0; side_a = a }

abbrev polled_doors : Laco ℕ
polled_doors = record {
  top = idle_job 0;
  bot = idle_job 2;
  val = λ _. 1000;
  val_ok = λ _. true;
  seen = true;
  aborted = false;
  said = record { last_error = "ok"; text = ""; until = 0; on = false };
  writes = [];
}

polled_doors-IsSound : IsSound polled_doors
polled_doors-IsSound = record { one = refl; top_side = refl; bot_side = refl }

abbrev takes_all : Plc
takes_all = λ _ _. true

acts-IsSound_example : IsSound (
    acts thousandths
      (request 1000 vented true true
        ∷ ticked takes_all 1200 vented
        ∷ request 1300 vented false true
        ∷ [])
      polled_doors)
acts-IsSound_example =
    acts-IsSound thousandths
      (request 1000 vented true true
        ∷ ticked takes_all 1200 vented
        ∷ request 1300 vented false true
        ∷ [])
      polled_doors polled_doors-IsSound

start-opens_example :
    (((get_job true polled_doors).active ≡ true) × ((get_job true polled_doors).opening ≡ false))
    ⊎ ((is_busy polled_doors ≡ false) × MayOpen thousandths vented true polled_doors)
unfolding start start_if gate air_ok comm_ok
start-opens_example = start-opens thousandths 1000 vented true polled_doors refl

-- The top doors opening, side A written at 1 s.
abbrev half_open : Laco ℕ
half_open = record polled_doors {
  top = record { active = true; opening = true; step = stagger; at_ms = 1000; side_a = 0 };
}

half_open-IsSound : IsSound half_open
half_open-IsSound = record { one = refl; top_side = refl; bot_side = refl }

abbrev beat_at : ℕ → Beat ℕ
beat_at t = record { plc = takes_all; now = t; w = vented }

tick-WroteOnly_example :
    WroteOnly (due_side half_open) half_open (tick takes_all 12000 vented half_open).0
tick-WroteOnly_example = tick-WroteOnly takes_all 12000 vented half_open half_open-IsSound
