-- ===== src/Enip/Read.antt =====
-- EtherNetIP.cpp, `readExact`: so many bytes from the transport, with a timeout for each and one for
-- the whole. The rounds of its loop are a list: the clock, and what the transport has.
use opta_gateway_mt.Base.{
  ℕ, zero, suc, ◌*◌, ◌≤◌, ◌≡◌, Bool, not, List, [], ◌∷◌, length, ltb, if◌then◌else◌, sub32,
}
use opta_gateway_mt.Enip.{Bytes}

-- A byte, a failed read, or nothing yet from a transport that is up or not.
pub data Seen : Type 0 where
  arrived : ℕ → Seen
  broken : Seen
  nothing : Bool → Seen

pub record Poll : Type 0 where
  pub now : ℕ
  pub seen : Seen

-- `waiting`: the rounds given end before the call does.
pub data Read : Type 0 where
  done : Bytes → Read
  failed : Read
  waiting : Read

abbrev pub and_byte : ℕ → Read → Read
and_byte b (done bs) = done (b ∷ bs)
and_byte b failed = failed
and_byte b waiting = waiting

-- A round that is in time: `more` goes on behind a byte, `again` behind an idle round.
abbrev pub round : ℕ → Seen → Bool → Read → Read → Read
round timeout (arrived b) late more again = and_byte b more
round timeout broken late more again = failed
round timeout (nothing up) late more again =
    if not up then failed else if late then failed else again

unfoldable pub read_exact : ℕ → ℕ → ℕ → ℕ → List Poll → Read
read_exact timeout start0 start zero ps = done []
read_exact timeout start0 start (suc n) [] = waiting
read_exact timeout start0 start (suc n) (p ∷ ps) =
    let more = read_exact timeout start0 p.now n ps in
    let again = read_exact timeout start0 start (suc n) ps in
    if ltb (3 * timeout) (sub32 p.now start0)
    then failed
    else round timeout p.seen (ltb timeout (sub32 p.now start)) more again

-- Every round comes at most three timeouts after the start.
abbrev pub AllInTime : ℕ → ℕ → List Poll → Type 0
AllInTime timeout start0 [] = Unit
AllInTime timeout start0 (p ∷ ps) = (sub32 p.now start0 ≤ 3 * timeout) × AllInTime timeout start0 ps

abbrev pub IsRead : ℕ → ℕ → ℕ → List Poll → Read → Type 0
IsRead timeout start0 n ps (done bs) = length bs ≡ n
IsRead timeout start0 n ps failed = Unit
IsRead timeout start0 n ps waiting = AllInTime timeout start0 ps
