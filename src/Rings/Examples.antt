-- ===== src/Rings/Examples.antt =====
-- The overwriting ring: three entries in two slots.
use opta_gateway_mt.Base.{List, ◌++◌, ◌-◌, length, ◌+◌, drop, ◌≡◌, ◌∷◌, arith, refl, [], ℕ}
use opta_gateway_mt.Rings.{Ring, entries, IsRing}
use opta_gateway_mt.Rings.Newest.{push_all, push_all-entries}

abbrev two_slots : Ring ℕ
two_slots = record { slots = 0 ∷ 0 ∷ []; head = 0; count = 0 }

abbrev three : List ℕ
three = 7 ∷ 8 ∷ 9 ∷ []

two_slots-IsRing : IsRing 2 two_slots
two_slots-IsRing = record { sized = refl; head_in = omega arith; count_in = omega arith }

push_all-entries_example :
    entries 2 0 (push_all 2 three two_slots)
    ≡ drop (two_slots.count + length three - 2) (entries 2 0 two_slots ++ three)
push_all-entries_example = push_all-entries 1 0 three two_slots two_slots-IsRing
