-- ===== src/Enip/Value.antt =====
-- EtherNetIP.cpp: what the bytes of a value are worth, in a reply for one tag and in a packet's.
use opta_gateway_mt.Base.{
  ℕ, ◌+◌, ◌*◌, Bool, not, ◌&&◌, ◌||◌, length, take, drop, leb, ltb, ◌==◌, if◌then◌else◌, Option,
  none, some,
}
use opta_gateway_mt.Base.Floats.{Floats}
use opta_gateway_mt.Base.Ints.{ℤ, signed16, signed32}
use opta_gateway_mt.Enip.{
  Bytes, byte_at, get16, get32, type_bool, type_int, type_dint, type_uint, type_udint, type_real,
}
use opta_gateway_mt.Enip.Session.{no_stale}

-- A data type and the bytes behind it.
pub record Raw : Type 0 where
  pub type : ℕ
  pub value : Bytes

-- The end of `readRaw`: at most `cap` bytes of the value are kept.
unfoldable pub raw_of : ℕ → Bytes → Option Raw
raw_of cap bytes =
    if ltb (length bytes) 2
    then none
    else some (record { type = get16 no_stale bytes 0; value = take cap (drop 2 bytes) })

-- `readDint`, `readInt`, `readBool`, behind `readRaw`.
unfoldable pub dint_of : Raw → Option ℤ
dint_of r =
    if (r.type == type_dint || r.type == type_udint) && leb 4 (length r.value)
    then some (signed32 (get32 no_stale r.value 0))
    else if r.type == type_int && leb 2 (length r.value)
    then some (signed16 (get16 no_stale r.value 0))
    else none

unfoldable pub int_of : Raw → Option ℤ
int_of r =
    if (r.type == type_int || r.type == type_uint) && leb 2 (length r.value)
    then some (signed16 (get16 no_stale r.value 0))
    else none

unfoldable pub bool_of : Raw → Option Bool
bool_of r = if leb 1 (length r.value) then some (not (byte_at no_stale r.value 0 == 0)) else none

module _ (fl : Floats) where
  open fl use {F, lit, of_bits, of_int}

  -- `readReal`, behind `readRaw`.
  unfoldable pub real_of : Raw → Option F
  real_of r =
      if r.type == type_real && leb 4 (length r.value)
      then some (of_bits (get32 no_stale r.value 0))
      else if r.type == type_dint && leb 4 (length r.value)
      then some (of_int (signed32 (get32 no_stale r.value 0)))
      else if r.type == type_int && leb 2 (length r.value)
      then some (of_int (signed16 (get16 no_stale r.value 0)))
      else none

  -- In a packet a BOOL counts too, as 0.0 or 1.0.
  unfoldable pub cell_value : Raw → Option F
  unfolding real_of
  cell_value r =
      if r.type == type_bool && leb 1 (length r.value)
      then some (if byte_at no_stale r.value 0 == 0 then lit 0 1 else lit 1 1)
      else real_of r

  -- One segment of a packet's reply: its status, its own extended status, and its value.
  unfoldable pub cell_of : Bytes → Option F
  cell_of seg =
      let voff = 4 + byte_at no_stale seg 3 * 2 in
      if not (byte_at no_stale seg 2 == 0) || ltb (length seg) (voff + 2)
      then none
      else cell_value (record { type = get16 no_stale seg voff; value = drop (voff + 2) seg })
