-- ===== src/Enip/Request.antt =====
-- EtherNetIP.cpp: the messages that the client sends, `buildCipRequest`, `wrapUnconnectedSend` and
-- `buildReadMSP`. `room` is the size of the buffer.
pub mod Bounds
-- pub mod Packet
use opta_gateway_mt.Base.{
  ◌-◌, ◌^◌, ℕ, ◌+◌, ◌*◌, ◌/◌, ◌%◌, Bool, true, false, ◌&&◌, ◌||◌, List, [], ◌∷◌, ◌++◌, length, ltb,
  ◌==◌, if◌then◌else◌, Option, none, some, sub32,
}
use opta_gateway_mt.Enip.{
  Bytes, put16, svc_read_tag, svc_write_tag, svc_multiple, svc_unconnected_send, max_msp_tags,
}
use opta_gateway_mt.Enip.Path.{build_path}

-- `PLC_ROUTE_PATH_PORT` and `PLC_ROUTE_PATH_SLOT` of config.h.
abbrev pub route_port : ℕ
route_port = 1

abbrev pub route_slot : ℕ
route_slot = 0

-- The request around a path.
unfoldable pub cip_frame : ℕ → ℕ → Bytes → ℕ → ℕ → Option Bytes → Option Bytes
cip_frame service type value elems room none = none
cip_frame service type value elems room (some path) =
    let head = service ∷ length path / 2 ∷ path in
    if length path == 0 || length path % 2 == 1 || ltb room (2 + length path)
    then none
    else if service == svc_write_tag
    then if ltb room (length head + 4 + length value)
      then none
      else some (head ++ (put16 type ++ (put16 elems ++ value)))
    else if ltb room (length head + 2)
    then none
    else some (head ++ put16 elems)

-- `buildCipRequest`.
unfoldable pub build_cip_request : ℕ → Bytes → ℕ → Bytes → ℕ → ℕ → Option Bytes
build_cip_request service tag type value elems room =
    cip_frame service type value elems room (build_path 80 tag)

abbrev pub send_head : Bytes
send_head = svc_unconnected_send ∷ 2 ∷ 0x20 ∷ 6 ∷ 0x24 ∷ 1 ∷ 0x0a ∷ 5 ∷ []

abbrev pub route : Bytes
route = 1 ∷ 0 ∷ route_port ∷ route_slot ∷ []

-- `wrapUnconnectedSend`.
unfoldable pub wrap_unconnected_send : Bytes → ℕ → Option Bytes
wrap_unconnected_send cip room =
    let pad : Bytes = if length cip % 2 == 1 then 0 ∷ [] else [] in
    if ltb room 8
      || ltb room (10 + length cip)
      || ltb room (10 + length cip + length pad)
      || ltb room (10 + length cip + length pad + 4)
    then none
    else some (send_head ++ (put16 (length cip) ++ (cip ++ (pad ++ route))))

abbrev pub msp_head : Bytes
msp_head = svc_multiple ∷ 2 ∷ 0x20 ∷ 2 ∷ 0x24 ∷ 1 ∷ []

-- An offset and a request in front of those that follow.
abbrev pub and_request : ℕ → Bytes → Option (List ℕ × Bytes) → Option (List ℕ × Bytes)
and_request o r none = none
and_request o r (some (os, rs)) = some (o ∷ os, r ++ rs)

abbrev pub msp_rest : ℕ → Option Bytes → (ℕ → Option (List ℕ × Bytes)) → Option (List ℕ × Bytes)
msp_rest pos none next = none
msp_rest pos (some r) next = and_request ((pos + 2 ^ 16 - 6) % 2 ^ 16) r (next (pos + length r))

-- The loop of `buildReadMSP`: the offsets, from the count word at 6, and the requests.
unfoldable pub msp_requests : ℕ → List Bytes → ℕ → Option (List ℕ × Bytes)
msp_requests room [] pos = some ([], [])
msp_requests room (tag ∷ tags) pos =
    msp_rest pos (build_cip_request svc_read_tag tag 0 [] 1 (sub32 room pos))
      (λ p. msp_requests room tags p)

abbrev pub put_words : List ℕ → Bytes
put_words [] = []
put_words (o ∷ os) = put16 o ++ put_words os

abbrev pub msp_message : ℕ → Option (List ℕ × Bytes) → Option Bytes
msp_message n none = none
msp_message n (some (os, rs)) = some (msp_head ++ (put16 n ++ (put_words os ++ rs)))

-- `buildReadMSP`.
unfoldable pub build_read_msp : List Bytes → ℕ → Option Bytes
build_read_msp tags room =
    let n = length tags in
    if n == 0 || ltb max_msp_tags n || ltb room 6
    then none
    else msp_message n (msp_requests room tags (6 + (2 + 2 * n)))
