-- ===== src/Prelude/Strings.antt =====
-- Joining Go strings.
use Prim.Native.String.{String, ◌++◌}
use mathlib.Core.List.{List, [], ◌∷◌}

-- `a + b + …`
abbrev pub joined : List String → String
joined [] = ""
joined (s ∷ rest) = s ++ joined rest
