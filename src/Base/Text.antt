-- ===== src/Base/Text.antt =====
-- The bytes of a text that the code has as a string literal.
use Prim.Native.Nat.{ℕ}
use Prim.Native.Char.{code}
use Prim.Native.String.{String, [], ◌∷◌}
use mathlib.Core.List.{List, [] as []ᴸ, ◌∷◌ as ◌∷ᴸ◌}

abbrev pub bytes : String → List ℕ
bytes [] = []ᴸ
bytes (c ∷ s) = code c ∷ᴸ bytes s
