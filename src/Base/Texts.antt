-- ===== src/Base/Texts.antt =====
-- Texts that the source prints, as the bytes of a literal.
use Prim.Native.Char.{code}
use Prim.Native.Nat.{ℕ}
use Prim.Native.String.{String}
use mathlib.Core.List.{List, [], ◌∷◌}

abbrev pub bytes_of : String → List ℕ
bytes_of String.[] = []
bytes_of (String.◌∷◌ letter rest) = code letter ∷ bytes_of rest
