-- ===== src/Enip/Calls.antt =====
-- EtherNetIP.cpp: the calls on tags, `readRaw` and `writeRaw` with their typed forms, and the batched
-- `readRealsMSP` and `readRealsMultiple`. Every message goes out in an Unconnected Send, as config.h
-- has it.
pub mod Chunks
pub mod Answers
use opta_gateway_mt.Base.{
  ℕ, zero, suc, ◌+◌, ◌*◌, ◌-◌, ◌%◌, Bool, true, false, not, ◌&&◌, ◌||◌, List, [], ◌∷◌, ◌++◌, length,
  take, drop, ltb, ◌==◌, if◌then◌else◌, Option, none, some,
}
use opta_gateway_mt.Base.Floats.{Floats}
use opta_gateway_mt.Base.Ints.{ℤ, bits16, bits32}
use opta_gateway_mt.Enip.{
  Bytes, Stale, put16, put32, byte_at, get16, svc_read_tag, svc_write_tag, svc_multiple, type_bool,
  type_int, type_dint, type_real, work_buf, max_msg, max_msp_tags,
}
use opta_gateway_mt.Enip.Request.{build_cip_request, wrap_unconnected_send, build_read_msp}
use opta_gateway_mt.Enip.Session.{Client, Wire, no_stale, send_rr_data, parse_cip_reply}
use opta_gateway_mt.Enip.Value.{Raw, raw_of, dint_of, int_of, bool_of, real_of, cell_of}
use opta_gateway_mt.Enip.Packet.{segments_from}

abbrev pub wrap_if : Option Bytes → ℕ → Option Bytes
wrap_if none room = none
wrap_if (some cip) room = wrap_unconnected_send cip room

abbrev pub send_if : Stale → Wire → Option Bytes → ℕ → Client → Client × Option Bytes
send_if stale w none cap c = (c, none)
send_if stale w (some msg) cap c = send_rr_data stale w msg cap c

abbrev pub parse_if : ℕ → Client × Option Bytes → Client × Option Bytes
parse_if service (c, none) = (c, none)
parse_if service (c, some reply) = parse_cip_reply reply service c

abbrev pub raw_if : ℕ → Client × Option Bytes → Client × Option Raw
raw_if cap (c, none) = (c, none)
raw_if cap (c, some bytes) = (c, raw_of cap bytes)

-- `readRaw`, with room for `cap` bytes of the value.
unfoldable pub read_raw : Stale → Wire → Bytes → ℕ → Client → Client × Option Raw
read_raw stale w tag cap c =
    let msg = wrap_if (build_cip_request svc_read_tag tag 0 [] 1 work_buf) work_buf in
    raw_if cap (parse_if svc_read_tag (send_if stale w msg work_buf c))

abbrev pub is_done : Client × Option Bytes → Client × Bool
is_done (c, none) = (c, false)
is_done (c, some _) = (c, true)

-- `writeRaw`.
unfoldable pub write_raw : Stale → Wire → Bytes → ℕ → Bytes → Client → Client × Bool
write_raw stale w tag type value c =
    let msg = wrap_if (build_cip_request svc_write_tag tag type value 1 work_buf) work_buf in
    is_done (parse_if svc_write_tag (send_if stale w msg work_buf c))

abbrev pub bind_raw : {A : Type 0} → (Raw → Option A) → Client × Option Raw → Client × Option A
bind_raw f (c, none) = (c, none)
bind_raw f (c, some r) = (c, f r)

unfoldable pub read_dint : Stale → Wire → Bytes → Client → Client × Option ℤ
read_dint stale w tag c = bind_raw dint_of (read_raw stale w tag 8 c)

unfoldable pub read_int : Stale → Wire → Bytes → Client → Client × Option ℤ
read_int stale w tag c = bind_raw int_of (read_raw stale w tag 8 c)

unfoldable pub read_bool : Stale → Wire → Bytes → Client → Client × Option Bool
read_bool stale w tag c = bind_raw bool_of (read_raw stale w tag 8 c)

unfoldable pub write_dint : Stale → Wire → Bytes → ℤ → Client → Client × Bool
write_dint stale w tag v c = write_raw stale w tag type_dint (put32 (bits32 v)) c

unfoldable pub write_int : Stale → Wire → Bytes → ℤ → Client → Client × Bool
write_int stale w tag v c = write_raw stale w tag type_int (put16 (bits16 v)) c

unfoldable pub write_bool : Stale → Wire → Bytes → Bool → Client → Client × Bool
write_bool stale w tag v c = write_raw stale w tag type_bool ((if v then 0xff else 0) ∷ []) c

-- `out` and `ok` of a batch: none where the tag was not read.
abbrev pub pad_to : {A : Type 0} → ℕ → List (Option A) → List (Option A)
pad_to zero xs = []
pad_to (suc n) [] = none ∷ pad_to n []
pad_to (suc n) (x ∷ xs) = x ∷ pad_to n xs

abbrev pub how_many : {A : Type 0} → List (Option A) → ℕ
how_many [] = 0
how_many (none ∷ xs) = how_many xs
how_many (some _ ∷ xs) = suc (how_many xs)

module _ (fl : Floats) where
  open fl use {F, to_bits}

  unfoldable pub read_real : Stale → Wire → Bytes → Client → Client × Option F
  read_real stale w tag c = bind_raw (real_of fl) (read_raw stale w tag 8 c)

  unfoldable pub write_real : Stale → Wire → Bytes → F → Client → Client × Bool
  write_real stale w tag v c = write_raw stale w tag type_real (put32 (to_bits v)) c

  abbrev pub cells : List (Option Bytes) → List (Option F)
  cells [] = []
  cells (none ∷ ss) = none ∷ cells ss
  cells (some s ∷ ss) = cell_of fl s ∷ cells ss

  -- The reply to a packet of `n` requests. `stale` is what the buffer holds past the reply.
  unfoldable pub msp_reply : Stale → ℕ → Bytes → Client → Client × Bool × List (Option F)
  msp_reply stale n reply c =
      let status = byte_at no_stale reply 2 in
      let off = 4 + byte_at no_stale reply 3 * 2 in
      let d : Client = record c {
        last_cip_status = status;
        last_ext_len = byte_at no_stale reply 3;
      } in
      let body = drop off reply in
      let rc = get16 stale body 0 in
      if ltb (length reply) 4
      then (c, false, pad_to n [])
      else if not (byte_at no_stale reply 0 % 128 == svc_multiple)
          || (not (status == 0) && not (status == 0x1e))
          || ltb (length reply) (off + 2)
          || rc == 0
          || ltb n rc
      then (d, false, pad_to n [])
      else (d, true, pad_to n (cells (segments_from stale body rc 0 rc)))

  abbrev pub msp_reply_if : Stale → ℕ → Client × Option Bytes → Client × Bool × List (Option F)
  msp_reply_if stale n (c, none) = (c, false, pad_to n [])
  msp_reply_if stale n (c, some reply) = msp_reply stale n reply c

  -- `readRealsMSP`.
  unfoldable pub read_reals_msp :
      Stale → Wire → List Bytes → Client → Client × Bool × List (Option F)
  read_reals_msp stale w tags c =
      let n = length tags in
      let msg = wrap_if (build_read_msp tags max_msg) max_msg in
      if n == 0
      then (c, true, [])
      else if ltb max_msp_tags n
      then (c, false, pad_to n [])
      else msp_reply_if stale n (send_if stale w msg max_msg c)

  -- `readRealsMultiple`: the values, and how many there are. Chunk `k` finds the transport `net k`;
  -- `f` bounds the rounds.
  unfoldable pub read_reals_multiple :
      ℕ → Stale → (ℕ → Wire) → ℕ → List Bytes → Client → Client × List (Option F) × ℕ
  read_reals_multiple f stale net k [] c = (c, [], 0)
  read_reals_multiple zero stale net k (t ∷ tags) c = (c, [], 0)
  read_reals_multiple (suc f) stale net k (t ∷ tags) c =
      let chunk = take max_msp_tags (t ∷ tags) in
      let (c1, done, values) = read_reals_msp stale (net k) chunk c in
      let kept = if done then values else pad_to (length chunk) [] in
      let (c2, rest, good) =
        read_reals_multiple f stale net (k + 1) (drop max_msp_tags (t ∷ tags)) c1 in
      (c2, kept ++ rest, how_many kept + good)
