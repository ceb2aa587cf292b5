-- ===== src/Prelude/Text.antt =====
-- A Go string is a sequence of bytes; its literals are written as native texts.
use Prim.Native.Nat.{ℕ}
use Prim.Native.Char.{code}
use Prim.Native.String.{String}
use mathlib.Core.Bool.{Bool, true, false}
use mathlib.Core.List.{List, [], ◌∷◌}
use native.Mathlib.Decide.{ℕ_discrete}

abbrev pub GoString : Type 0
GoString = List ℕ

-- The bytes of an ASCII literal.
abbrev pub bytes : String → GoString
bytes String.[] = []
bytes (String.◌∷◌ c s) = code c ∷ bytes s

-- s == ""
abbrev pub is_empty_string : GoString → Bool
is_empty_string [] = true
is_empty_string (c ∷ s) = false

unfoldable pub str_dec : Discrete GoString
unfolding ℕ_discrete
str_dec = hlevel ℕ_discrete
