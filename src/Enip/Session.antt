-- ===== src/Enip/Session.antt =====
-- EtherNetIP.cpp: the session and the exchange of one message, `begin`, `end`, `sendRRData` and
-- `parseCipReply`.
pub mod Exchange
use opta_gateway_mt.Base.{
  ℕ, ◌+◌, ◌*◌, ◌-◌, ◌%◌, Bool, true, false, not, ◌&&◌, ◌||◌, List, [], ◌∷◌, ◌++◌, length, take,
  drop, replicate, ltb, ◌==◌, if◌then◌else◌, Option, none, some,
}
use opta_gateway_mt.Enip.{Bytes, Stale, put16, put32, byte_at, get16, get32, max_msg}

abbrev pub cmd_register_session : ℕ
cmd_register_session = 0x65

abbrev pub cmd_unregister_session : ℕ
cmd_unregister_session = 0x66

abbrev pub cmd_send_rr_data : ℕ
cmd_send_rr_data = 0x6f

abbrev pub header_len : ℕ
header_len = 24

abbrev pub item_unconnected_data : ℕ
item_unconnected_data = 0xb2

-- `_session`, `_lastCipStatus`, `_lastExtLen`.
pub record Client : Type 0 where
  pub session : ℕ
  pub last_cip_status : ℕ
  pub last_ext_len : ℕ

-- The transport during a call: whether it is up, connects, takes a packet whole, and what
-- `readExact` gives for the header and for a body of a length.
pub record Wire : Type 0 where
  pub up : Bool
  pub connects : Bool
  pub takes : Bytes → Bool
  pub head : Option Bytes
  pub body : ℕ → Option Bytes

unfoldable pub is_connected : Wire → Client → Bool
is_connected w c = not (c.session == 0) && w.up

abbrev pub no_stale : Stale
no_stale _ = 0

abbrev pub register_packet : Bytes
register_packet =
    put16 cmd_register_session ++ (put16 4 ++ (replicate 20 0 ++ (put16 1 ++ put16 0)))

-- `end`: what goes out, if anything, and the session is gone.
unfoldable pub end_session : Wire → Client → Client × Option Bytes
unfolding is_connected
end_session w c = (
  record c { session = 0 },
  if is_connected w c
      then some (put16 cmd_unregister_session ++ (put16 0 ++ (put32 c.session ++ replicate 16 0)))
      else none,
)

abbrev pub drop_session : Client → Client
drop_session c = record c { session = 0 }

abbrev pub registered : Client → Bytes → Option Bytes → Client × Bool
registered c hdr none = (drop_session c, false)
registered c hdr (some _) = let s = get32 no_stale hdr 4 in (record c { session = s }, not (s == 0))

abbrev pub register_reply : Wire → Client → Option Bytes → Client × Bool
register_reply w c none = (drop_session c, false)
register_reply w c (some hdr) =
    let len = get16 no_stale hdr 2 in
    if not (get16 no_stale hdr 0 == cmd_register_session) || not (get32 no_stale hdr 8 == 0)
    then (drop_session c, false)
    else if len == 0
    then registered c hdr (some [])
    else registered c hdr (w.body (if ltb 8 len then 8 else len))

-- `begin`; what its `end` sends is not kept.
unfoldable pub begin : Wire → Client → Client × Bool
unfolding end_session
begin w old =
    let c = (end_session w old).0 in
    if not w.connects
    then (c, false)
    else if not (w.takes register_packet)
    then (drop_session c, false)
    else register_reply w c w.head

-- `dataLen`, a `uint16_t`.
abbrev pub data_len : Bytes → ℕ
data_len cip = (16 + length cip) % 65536

unfoldable pub rr_packet : ℕ → Bytes → Bytes
rr_packet session cip =
    (put16 cmd_send_rr_data ++ (put16 (data_len cip) ++ (put32 session ++ replicate 16 0)))
    ++ (put32 0
        ++ (put16 5
            ++ (put16 2
                ++ (put16 0
                    ++ (put16 0 ++ (put16 item_unconnected_data ++ (put16 (length cip) ++ cip)))))))

-- The items of a body: the second is the reply. `stale` is what the buffer holds past the body.
unfoldable pub parse_items : Stale → Bytes → ℕ → Client → Client × Option Bytes
parse_items stale body reply_cap c =
    let j = 12 + get16 stale body 10 in
    let type1 = get16 stale body j in
    let len1 = get16 stale body (j + 2) in
    if ltb (get16 stale body 6) 2
    then (drop_session c, none)
    else if not (type1 == item_unconnected_data)
    then (drop_session c, none)
    else if ltb (length body) (j + 4 + len1) || ltb reply_cap len1
    then (c, none)
    else (c, some (take len1 (drop (j + 4) body)))

abbrev pub rr_body : Stale → ℕ → Client → Option Bytes → Client × Option Bytes
rr_body stale reply_cap c none = (drop_session c, none)
rr_body stale reply_cap c (some body) = parse_items stale body reply_cap c

abbrev pub rr_head : Stale → Wire → ℕ → Client → Option Bytes → Client × Option Bytes
rr_head stale w reply_cap c none = (drop_session c, none)
rr_head stale w reply_cap c (some hdr) =
    let len = get16 no_stale hdr 2 in
    if not (get16 no_stale hdr 0 == cmd_send_rr_data)
    then (drop_session c, none)
    else if not (get32 no_stale hdr 8 == 0)
    then (drop_session c, none)
    else if ltb len 16
    then (drop_session c, none)
    else if ltb max_msg len
    then (drop_session c, none)
    else rr_body stale reply_cap c (w.body len)

-- `sendRRData`.
unfoldable pub send_rr_data : Stale → Wire → Bytes → ℕ → Client → Client × Option Bytes
unfolding is_connected
send_rr_data stale w cip reply_cap c =
    if not (is_connected w c)
    then (c, none)
    else if ltb (header_len + max_msg) (header_len + data_len cip)
    then (c, none)
    else if not (w.takes (rr_packet c.session cip))
    then (drop_session c, none)
    else rr_head stale w reply_cap c w.head

-- `parseCipReply`: the statuses are noted, and the data behind them is the result.
unfoldable pub parse_cip_reply : Bytes → ℕ → Client → Client × Option Bytes
parse_cip_reply reply service c =
    let off = 4 + byte_at no_stale reply 3 * 2 in
    let d : Client = record c {
      last_cip_status = byte_at no_stale reply 2;
      last_ext_len = byte_at no_stale reply 3;
    } in
    if ltb (length reply) 4
    then (c, none)
    else if not (byte_at no_stale reply 0 % 128 == service % 128)
    then (d, none)
    else if ltb (length reply) off
    then (d, none)
    else if not (byte_at no_stale reply 2 == 0)
    then (d, none)
    else (d, some (drop off reply))
