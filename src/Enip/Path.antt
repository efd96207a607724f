-- ===== src/Enip/Path.antt =====
-- EtherNetIP.cpp, `buildSymbolicPath`: from the text of a tag to the path of a request. Each loop
-- takes a byte of the text a round; `fuel` counts the rounds of the outer one and of the one over
-- index segments.
pub mod Fuel
pub mod RoundTrip
pub mod Reader
use opta_gateway_mt.Base.{
  ℕ, zero, suc, ◌+◌, ◌-◌, ◌*◌, ◌/◌, ◌%◌, ◌^◌, Bool, true, false, not, ◌&&◌, ◌||◌, List, [], ◌∷◌,
  ◌++◌, length, ltb, leb, ◌==◌, if◌then◌else◌, Option, none, some,
}
use opta_gateway_mt.Enip.{Bytes, put16, put32}

abbrev pub dot : ℕ
dot = 46

abbrev pub open_bracket : ℕ
open_bracket = 91

abbrev pub close_bracket : ℕ
close_bracket = 93

abbrev pub ends_name : ℕ → Bool
ends_name c = c == dot || c == open_bracket

abbrev pub is_digit : ℕ → Bool
is_digit c = leb 48 c && leb c 57

-- The name up to the next '.' or '[', and the text from there.
unfoldable pub split_name : Bytes → Bytes × Bytes
split_name [] = ([], [])
split_name (c ∷ p) =
    let (name, rest) = split_name p in if ends_name c then ([], c ∷ p) else (c ∷ name, rest)

-- The digits of an index: the number, whether there was one, the text behind.
unfoldable pub digits : ℕ → Bool → Bytes → ℕ × Bool × Bytes
digits idx any [] = (idx, any, [])
digits idx any (c ∷ p) =
    let more = digits ((idx * 10 + (c - 48)) % 2 ^ 32) true p in
    if is_digit c then more else (idx, any, c ∷ p)

unfoldable pub index_segment : ℕ → Bytes
index_segment idx =
    if leb idx 255
    then 0x28 ∷ idx ∷ []
    else if leb idx 65535
    then 0x29 ∷ 0 ∷ put16 idx
    else 0x2a ∷ 0 ∷ put32 idx

-- Behind the digits: ']' has to follow, and the segment has to fit.
unfoldable pub close_index : ℕ → ℕ × Bool × Bytes → Bytes → Option (Bytes × Bytes)
close_index room (idx, any, []) out = none
close_index room (idx, any, c ∷ p) out =
    if not any || not (c == close_bracket)
    then none
    else if ltb room (length out + length (index_segment idx))
    then none
    else some (p, out ++ index_segment idx)

-- The next step of the builder, unless it has given up.
abbrev pub and_then :
    Option (Bytes × Bytes) → (Bytes → Bytes → Option (Bytes × Bytes)) → Option (Bytes × Bytes)
and_then none next = none
and_then (some (p, out)) next = next p out

-- The index segments that follow a name: the text behind them, and what has been written.
unfoldable pub indexes : ℕ → ℕ → Bytes → Bytes → Option (Bytes × Bytes)
indexes room f [] out = some ([], out)
indexes room zero (c ∷ p) out = none
indexes room (suc f) (c ∷ p) out =
    let more = and_then (close_index room (digits 0 false p) out) (λ q o. indexes room f q o) in
    if c == open_bracket then more else some (c ∷ p, out)

unfoldable pub name_segment : Bytes → Bytes
name_segment name = 0x91 ∷ length name ∷ (name ++ (if length name % 2 == 1 then 0 ∷ [] else []))

-- A name of 1 to 63 bytes that fits, with a byte to spare.
unfoldable pub put_name : ℕ → Bytes × Bytes → Bytes → Option (Bytes × Bytes)
put_name room (name, rest) out =
    if ltb 63 (length name) || length name == 0 || ltb room (length out + 2 + length name + 1)
    then none
    else some (rest, out ++ name_segment name)

abbrev pub skip_dot : Bytes → Bytes
skip_dot [] = []
skip_dot (c ∷ p) = if c == dot then p else c ∷ p

-- One round: a name, its index segments, and a '.' behind them.
unfoldable pub member : ℕ → Bytes → Bytes → Option (Bytes × Bytes)
member room p out =
    and_then (and_then (put_name room (split_name p) out) (λ q o. indexes room (length q) q o))
      (λ q o. some (skip_dot q, o))

unfoldable pub segments : ℕ → ℕ → Bytes → Bytes → Option (Bytes × Bytes)
segments room f [] out = some ([], out)
segments room zero (c ∷ p) out = none
segments room (suc f) (c ∷ p) out = and_then (member room (c ∷ p) out) (λ q o. segments room f q o)

abbrev pub written : Option (Bytes × Bytes) → Option Bytes
written none = none
written (some (_, out)) = some out

-- `buildSymbolicPath` into a buffer of `room` bytes.
unfoldable pub build_path : ℕ → Bytes → Option Bytes
build_path room tag = written (segments room (length tag) tag [])
