-- ===== src/Episode/Examples.antt =====
-- episode_log.h: an outage of two minutes.
use opta_gateway_mt.Base.{◌-◌, [], ◌∷◌, ◌++◌, List, length, drop, replicate, ◌≡◌, refl, arith}
use opta_gateway_mt.Rings.{IsRing}
use opta_gateway_mt.Episode.{
  Text, Log, log_clear, join, header, reset_text, epi_rows, epi_block_cap,
}
use opta_gateway_mt.Episode.Block.{log_all, clip_all}
use opta_gateway_mt.Episode.Join.{lines_of, join_complete}

abbrev empty_log : Log
empty_log = record { slots = replicate 40 []; head = 0; count = 0 }

empty_log-IsRing : IsRing epi_rows empty_log
empty_log-IsRing = record { sized = refl; head_in = omega arith; count_in = omega arith }

-- "+1" and "+2".
abbrev two_rows : List Text
two_rows = (43 ∷ 49 ∷ []) ∷ (43 ∷ 50 ∷ []) ∷ []

join_complete_example :
    join epi_block_cap reset_text 7 2 (log_all two_rows (log_clear empty_log))
    ≡ header reset_text 7 2 (length (drop (2 - epi_rows) (clip_all two_rows)))
      ++ lines_of (drop (2 - epi_rows) (clip_all two_rows))
join_complete_example =
    join_complete two_rows reset_text 7 2 empty_log empty_log-IsRing (omega arith)
