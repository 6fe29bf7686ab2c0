-- ===== src/Prelude/Words.antt =====
-- Texts put together: what `fmt.Sprintf` with %s and %v makes of its parts, and `strings.Join`.
use Prim.Native.String.{String, ◌++◌}
use mathlib.Core.List.{List, [], ◌∷◌}

unfoldable pub concat : List String → String
concat [] = ""
concat (s ∷ ss) = s ++ concat ss

unfoldable pub join : List String → String → String
join [] sep = ""
join (s ∷ []) sep = s
join (s ∷ t ∷ ss) sep = s ++ (sep ++ join (t ∷ ss) sep)
