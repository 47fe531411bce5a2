-- ===== src/Prelude/Texts.antt =====
-- An f-string: the pieces, one after another.
use Prim.Native.String.{String, ◌++◌}
use mathlib.Core.List.{List, [] as nil, ◌∷◌ as ◌cons◌}

abbrev pub concat : List String → String
concat nil = ""
concat (◌cons◌ s rest) = s ++ concat rest
