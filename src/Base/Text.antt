-- ===== src/Base/Text.antt =====
-- Text as bytes: literals of the source, and comparison.

use Prim.Native.Char.{code}
use Prim.Native.String.{String}
use mathlib.Core.Bool.{Bool, true, false}
use mathlib.Core.List.{[], ◌∷◌}
use mathlib.Core.Logic.{ite}
use local_cache_service.Base.Words.{Bytes, bytes_discrete}

-- The code points of a text: its bytes, if it is ASCII.
abbrev pub codes : String → Bytes
codes String.[] = []
codes (String.◌∷◌ c s) = code c ∷ codes s

-- text == literal
unfoldable pub same_text : Bytes → String → Bool
same_text text literal = ite (bytes_discrete text (codes literal)) true false
