-- ===== src/Enip/Packet.antt =====
-- EtherNetIP.cpp: the segments of a Multiple Service Packet, as `readRealsMSP` finds them and as
-- `buildReadMSP` lays them out.
pub mod Split
pub mod Layout
use opta_gateway_mt.Base.{
  ℕ, zero, suc, ◌+◌, ◌*◌, ◌-◌, ◌%◌, Bool, true, false, ◌||◌, List, [], ◌∷◌, ◌++◌, length, take,
  drop, leb, ltb, if◌then◌else◌, Option, none, some,
}
use opta_gateway_mt.Enip.{Bytes, Stale, get16, put16}
use opta_gateway_mt.Enip.Request.{put_words}

-- Segment `i` of `rc`: from its offset to the next one, or to the end. `d` is the packet from its
-- count word on.
unfoldable pub segment_at : Stale → Bytes → ℕ → ℕ → Option Bytes
segment_at stale d rc i =
    let start = get16 stale d (2 + 2 * i) in
    let finish = if ltb (i + 1) rc then get16 stale d (2 + 2 * (i + 1)) else length d % 65536 in
    if leb (length d) start || ltb (length d) finish || ltb finish (start + 4)
    then none
    else some (take (finish - start) (drop start d))

-- The loop over the segments, `n` of them from `i` on.
unfoldable pub segments_from : Stale → Bytes → ℕ → ℕ → ℕ → List (Option Bytes)
segments_from stale d rc i zero = []
segments_from stale d rc i (suc n) = segment_at stale d rc i ∷ segments_from stale d rc (i + 1) n

-- The layout: the count, the offsets from the count word, the segments one behind the other.
abbrev pub offsets : ℕ → List Bytes → List ℕ
offsets p [] = []
offsets p (s ∷ ss) = p ∷ offsets (p + length s) ss

abbrev pub concat : List Bytes → Bytes
concat [] = []
concat (s ∷ ss) = s ++ concat ss

unfoldable pub frame : List Bytes → Bytes
frame ss = put16 (length ss) ++ (put_words (offsets (2 + 2 * length ss) ss) ++ concat ss)
