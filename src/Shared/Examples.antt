-- ===== src/Shared/Examples.antt =====
-- shared.h: a snapshot on concrete values, and the surface with a few commands.
use opta_gateway_mt.Base.{List, ℕ, false, true, [], ◌∷◌, ◌≡◌, ◌↔◌, refl, arith}
use opta_gateway_mt.Shared.{PlcSnapshot, Cmd, CmdTag, take_snapshot}
use opta_gateway_mt.Shared.Samples.{blank, board}
use opta_gateway_mt.Shared.Handover.{publish_all, newest, numbered, take_snapshot-newest}
use opta_gateway_mt.Shared.Commands.{post, take_one, moves, History, IsFair, moves-IsFair}

abbrev two_ticks : List (ℕ × PlcSnapshot ℕ)
two_ticks = (1000, blank) ∷ (1200, record blank { fails = 3 }) ∷ []

-- The second publish's copy, as number 2.
take_snapshot-newest_example :
    let (out, last, fresh) = take_snapshot 0 (publish_all two_ticks board) in
    (out ≡ numbered 2 (record blank { stamp_ms = 1200; fails = 3 }))
    × (last ≡ out.seq)
    × ((fresh ≡ false) ↔ (two_ticks ≡ []))
unfolding newest
take_snapshot-newest_example = take_snapshot-newest two_ticks board (omega arith) (omega arith)

abbrev press : CmdTag → Cmd ℕ
press t = record { tag = t; is_bool = true; value = 1 }

abbrev at_rest : History ℕ
at_rest = record { board = board; accepted = []; taken = []; refused = 0 }

at_rest-IsFair : IsFair at_rest
at_rest-IsFair = record { in_order = refl; bounded = omega arith; counted = omega arith }

moves-IsFair_example : IsFair (
    moves
      (post (press CmdTag.start_button) ∷ take_one ∷ post (press CmdTag.stop_button) ∷ [])
      at_rest)
moves-IsFair_example =
    moves-IsFair
      (post (press CmdTag.start_button) ∷ take_one ∷ post (press CmdTag.stop_button) ∷ []) at_rest
      at_rest-IsFair
