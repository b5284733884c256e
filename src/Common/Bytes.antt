-- ===== src/Common/Bytes.antt =====
-- The bytes of a literal that has ASCII characters only.
use Prim.Native.Nat.{ℕ}
use Prim.Native.Char.{code}
use Prim.Native.String.{String, [], ◌∷◌}
use mathlib.Core.List.{List}

abbrev pub bytes : String → List ℕ
bytes [] = List.[]
bytes (c ∷ s) = List.◌∷◌ (code c) (bytes s)
