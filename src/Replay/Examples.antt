-- ===== src/Replay/Examples.antt =====
-- influx_replay.h: a ring of two records, its lines, its pass, and a store that holds it.
use opta_gateway_mt.Base.{
  ◌≡◌, length, [], List, none, some, length-replicate, ◌∷◌, arith, ◌==◌, if◌then◌else◌, Option,
  true, replicate, false, refl, ℕ,
}
use opta_gateway_mt.Base.Thousandths.{thousandths}
use opta_gateway_mt.Base.Decimal.{decimal_from}
use opta_gateway_mt.Base.Texts.{bytes_of}
use opta_gateway_mt.Shared.Samples.{blank}
use opta_gateway_mt.Rings.{IsRing, push, entries}
use opta_gateway_mt.Rings.Window.{push-IsRing}
use opta_gateway_mt.Replay.{Rec, Replay, status, max_recs, record_of}
use opta_gateway_mt.Replay.Lines.{
  add_plausible, add_value, add_sensors, add_record, Text, build_batch, line_of, fmt_float,
}
use opta_gateway_mt.Replay.Batch.{IsBatch, build_batch-IsBatch}
use opta_gateway_mt.Replay.Tick.{Pass, queued, no_rec}
use opta_gateway_mt.Replay.Late.{IsStuck, ticks, ticks-IsStuck}
use opta_gateway_mt.Replay.Store.{put_chunks, Kv, IsKv, persist, load}
use opta_gateway_mt.Replay.Restore.{persist-load}

abbrev thing : Text
thing = bytes_of "IP_2_thing"

abbrev empty : Rec ℕ
empty = no_rec thousandths thing

-- One sensor read, and the flow.
abbrev one : Rec ℕ
one =
    record (record_of 1757500000
      (record blank { flow_rate = 1500; ok = λ k. k == 0; sensor = λ _. 23407 })) { plc = true }

abbrev boot : Replay ℕ
boot = record {
  ring = record { slots = replicate 360 empty; head = 0; count = 0 };
  last_cap_ms = 0;
  cloud_up_since = 0;
  sent_recs = 0;
  posts = 0;
  post_fails = 0;
  dropped = 0;
  rejected = 0;
  last_epoch = 0;
  bad_epoch = 0;
  down_since = 0;
}

abbrev two : Replay ℕ
two = record boot {
  ring = push max_recs one (push max_recs one boot.ring);
  last_epoch = 1757500000;
  cloud_up_since = 1000;
}

boot-IsRing : IsRing max_recs boot.ring
boot-IsRing = record {
  sized = length-replicate 360 empty;
  head_in = omega arith;
  count_in = omega arith;
}

two-IsRing : IsRing max_recs two.ring
two-IsRing =
    push-IsRing 359 one (push max_recs one boot.ring) (push-IsRing 359 one boot.ring boot-IsRing)

-- A minute of the cloud's being back, and more: time to drain.
abbrev back_up : Pass ℕ
back_up = record {
  now = 200000;
  clock = 1757500100;
  cloud_up = true;
  snapshot = none;
  ready = true;
  push = λ _. status 204;
}

-- A new outage two days later.
abbrev down_again : ℕ → Pass ℕ
down_again now = record back_up {
  now = now;
  clock = 1757700000;
  cloud_up = false;
  snapshot = some (record blank { stamp_ms = now });
}

one_line : (build_batch thousandths thing 10240 (record one { ok = λ _. false } ∷ []) []).1 ≡ 1
unfolding build_batch add_plausible add_record add_sensors add_value line_of fmt_float decimal_from
one_line = refl

build_batch-IsBatch_example :
    IsBatch thousandths thing 200
      (one ∷ one ∷ [])
      []
      (build_batch thousandths thing 200 (one ∷ one ∷ []) [])
build_batch-IsBatch_example =
    build_batch-IsBatch thousandths thing 200 (one ∷ one ∷ []) [] (omega arith)

ticks-IsStuck_example :
    IsStuck thousandths thing two
      (ticks thousandths thing (down_again 300000 ∷ down_again 310000 ∷ []) two)
ticks-IsStuck_example =
    ticks-IsStuck thousandths thing (down_again 300000 ∷ down_again 310000 ∷ []) two (omega arith)
      (omega arith, omega arith, (omega arith, omega arith, tt))

-- A store in memory.
abbrev Memory : Type 0
Memory = (ℕ → Option (List (Rec ℕ))) × Option ℕ

abbrev of_length : ℕ → Option (List (Rec ℕ)) → Option (List (Rec ℕ))
of_length n none = none
of_length n (some xs) = if length xs == n then some xs else none

abbrev memory : Kv ℕ
memory = record {
  S = Memory;
  put_chunk = λ i xs s. ((λ j. if j == i then some xs else s.0 j, s.1), true);
  get_chunk = λ i n s. of_length n (s.0 i);
  remove_chunk = λ i s. (λ j. if j == i then none else s.0 j, s.1);
  put_meta = λ m s. ((s.0, some m), true);
  get_meta = λ s. s.1;
  remove_meta = λ s. (s.0, none);
}

memory-IsKv : IsKv memory
memory-IsKv = record {
  get_put = λ i xs s e. ground arith;
  get_put_other = λ i j n xs s ne. ground (arith, ne);
  get_put_meta = λ i n m s. refl;
  meta_put = λ m s e. refl;
  meta_removed = λ s. refl;
}

persist-load_example :
    let s = (persist thousandths thing memory true true two (λ _. none, none)).0 in
    (queued thousandths thing (load memory s boot).0 ≡ queued thousandths thing two)
    × ((load memory s boot).1 ≡ two.ring.count)
    × (memory.get_meta (load memory s boot).2 ≡ none)
unfolding persist push put_chunks entries
persist-load_example =
    persist-load thousandths thing memory true true two boot (λ _. none, none) memory-IsKv
      two-IsRing boot-IsRing refl refl refl
