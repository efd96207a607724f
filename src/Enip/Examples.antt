-- ===== src/Enip/Examples.antt =====
-- EtherNetIP.cpp: a tag, a slow transport, and a controller that answers.
use opta_gateway_mt.Base.{◌≡◌, inl, refl, arith, true, List, [], ◌∷◌, length, none, some}
use opta_gateway_mt.Base.Thousandths.{thousandths}
use opta_gateway_mt.Enip.{Bytes, max_msg}
use opta_gateway_mt.Enip.Path.{
  member, put_name, split_name, name_segment, index_segment, build_path, segments, indexes,
}
use opta_gateway_mt.Enip.Path.RoundTrip.{encode_idxs, Member, encode, print_tag}
use opta_gateway_mt.Enip.Path.Reader.{flat, read_path, build_path-read}
use opta_gateway_mt.Enip.Read.{Poll, arrived, nothing}
use opta_gateway_mt.Enip.Request.{
  cip_frame, msp_requests, build_cip_request, wrap_unconnected_send, build_read_msp,
}
use opta_gateway_mt.Enip.Session.{Client, Wire, send_rr_data, is_connected, no_stale}
use opta_gateway_mt.Enip.Session.Exchange.{
  Answers, answer_head, answer_body, IsExchanged, send_rr_data-IsExchanged,
}
use opta_gateway_mt.Enip.Packet.{frame, segments_from}
use opta_gateway_mt.Enip.Packet.Split.{all_some, segments_from-frame}
use opta_gateway_mt.Enip.Packet.Layout.{IsPacket, build_read_msp-IsPacket}
use opta_gateway_mt.Enip.Calls.{read_reals_msp, read_reals_multiple, how_many, wrap_if}
use opta_gateway_mt.Enip.Calls.Chunks.{nth, packet_answer, read_reals_multiple-answers}
use opta_gateway_mt.Enip.Calls.Answers.{real, answer_values, packet_reply, read_reals_msp-answer}

-- `T1.PRE[300]`.
abbrev timer : List Member
timer =
    record { name = 84 ∷ 49 ∷ []; idxs = [] }
    ∷ record { name = 80 ∷ 82 ∷ 69 ∷ []; idxs = 300 ∷ [] }
    ∷ []

build_path-read_example : read_path (build_path 80 (print_tag timer)) ≡ some (flat timer)
unfolding encode
build_path-read_example =
    build_path-read 80 timer
      (
        (refl, (refl, tt)),
        omega arith,
        omega arith,
        tt,
        ((refl, (refl, (refl, tt))), omega arith, omega arith, (omega arith, tt), tt),
      )
      (unfold encode_idxs name_segment index_segment in omega arith)

-- `T1`.
abbrev t1 : Bytes
t1 = 84 ∷ 49 ∷ []

-- Two bytes, the second after an idle round.
abbrev trickle : List Poll
trickle =
    record { now = 100; seen = arrived 7 }
    ∷ record { now = 900; seen = nothing true }
    ∷ record { now = 1500; seen = arrived 8 }
    ∷ []

abbrev client : Client
client = record { session = 5; last_cip_status = 0; last_ext_len = 0 }

-- A transport that brings `reply`, whatever is asked.
abbrev bringing : Bytes → Wire
bringing reply = record {
  up = true;
  connects = true;
  takes = λ _. true;
  head = some (answer_head 5 reply);
  body = λ _. some (answer_body reply);
}

Answers-t1 : (reply : Bytes) → Answers (bringing reply) client t1 reply
unfolding is_connected
Answers-t1 reply = record { connected = refl; took = refl; head = refl; body = refl }

-- The header comes, the body does not.
abbrev stalled : Wire
stalled = record (bringing (1 ∷ [])) { body = λ _. none }

send_rr_data-IsExchanged_example :
    IsExchanged no_stale stalled 256 client (send_rr_data no_stale stalled t1 256 client)
send_rr_data-IsExchanged_example =
    send_rr_data-IsExchanged no_stale stalled t1 256 client (unfold is_connected in refl)
      (omega arith)

abbrev two_segments : List Bytes
two_segments = (1 ∷ 2 ∷ 3 ∷ 4 ∷ []) ∷ (5 ∷ 6 ∷ 7 ∷ 8 ∷ 9 ∷ []) ∷ []

segments_from-frame_example :
    segments_from no_stale (frame two_segments) 2 0 2 ≡ all_some two_segments
unfolding frame
segments_from-frame_example = segments_from-frame no_stale two_segments (omega arith) (omega arith)

build_read_msp-IsPacket_example : IsPacket (t1 ∷ t1 ∷ []) (build_read_msp (t1 ∷ t1 ∷ []) 700)
build_read_msp-IsPacket_example =
    build_read_msp-IsPacket (t1 ∷ t1 ∷ []) 700 (omega arith) (omega arith)

-- Thirteen times `T1`, in two packets.
abbrev thirteen : List Bytes
thirteen = t1 ∷ t1 ∷ t1 ∷ t1 ∷ t1 ∷ t1 ∷ t1 ∷ t1 ∷ t1 ∷ t1 ∷ t1 ∷ t1 ∷ t1 ∷ []

read_reals_multiple-answers_example :
    let (_, values, good) =
      read_reals_multiple thousandths 13 no_stale (λ _. stalled) 0 thirteen client in
    (length values ≡ 13)
    × (good ≡ how_many values)
    × (nth values 12
        ≡ nth (packet_answer thousandths 1 no_stale (λ _. stalled) 0 thirteen client) 0)
read_reals_multiple-answers_example =
    read_reals_multiple-answers thousandths 13 no_stale (λ _. stalled) 0 thirteen client 12
      (omega arith) (omega arith)

-- The packet for `T1`, in its Unconnected Send.
abbrev asked : Bytes
asked =
    82 ∷ 2 ∷ 32 ∷ 6 ∷ 36 ∷ 1 ∷ 10 ∷ 5 ∷ 18 ∷ 0 ∷ 10 ∷ 2 ∷ 32 ∷ 2 ∷ 36 ∷ 1 ∷ 1 ∷ 0 ∷ 4 ∷ 0 ∷ 76 ∷ 2
    ∷ 145 ∷ 2 ∷ 84 ∷ 49 ∷ 1 ∷ 0 ∷ 1 ∷ 0 ∷ 1 ∷ 0 ∷ []

asked_lem : wrap_if (build_read_msp (t1 ∷ []) max_msg) max_msg ≡ some asked
unfolding build_read_msp msp_requests build_cip_request cip_frame build_path segments member
    put_name split_name name_segment indexes wrap_unconnected_send
asked_lem = refl

-- 23.5, as its thousandths.
abbrev reading : Bytes
reading = packet_reply thousandths 0 (real 23500 ∷ [])

read_reals_msp-answer_example :
    read_reals_msp thousandths no_stale (bringing reading) (t1 ∷ []) client
    ≡ (client, true, answer_values thousandths (real 23500 ∷ []))
read_reals_msp-answer_example =
    read_reals_msp-answer thousandths no_stale (bringing reading) (t1 ∷ []) asked 0
      (real 23500 ∷ []) client (λ x. refl) asked_lem (omega arith) refl (omega arith) (omega arith)
      (omega arith, tt) (inl refl) (unfold frame in omega arith)
      (unfold is_connected in record { connected = refl; took = refl; head = refl; body = refl })
