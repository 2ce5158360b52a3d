-- ===== src/Prelude/Text.antt =====
-- Texts joined as `format!` joins them, computing on the first.
use Prim.Native.Char.{code}
use Prim.Native.String.{String}
use mathlib.Core.Bool.{Bool, true, false, ◌&&◌, ◌||◌}
use mathlib.Core.Option.{Option, none, some}
use analytics_hub.Prelude.Tests.{◌==◌, if◌then◌else◌}

infixr 65 ◌++◌
abbrev pub ◌++◌ : String → String → String
String.[] ++ t = t
(String.◌∷◌ c s) ++ t = String.◌∷◌ c (s ++ t)

abbrev pub strip_prefix : String → String → Option String
strip_prefix String.[] s = some s
strip_prefix (String.◌∷◌ c p) String.[] = none
strip_prefix (String.◌∷◌ c p) (String.◌∷◌ d s) =
    let rest = strip_prefix p s in if code c == code d then rest else none

abbrev pub starts_with : String → String → Bool
starts_with String.[] s = true
starts_with (String.◌∷◌ c p) String.[] = false
starts_with (String.◌∷◌ c p) (String.◌∷◌ d s) = code c == code d && starts_with p s

-- `s.contains(needle)`
abbrev pub contains : String → String → Bool
contains needle String.[] = starts_with needle ""
contains needle (String.◌∷◌ c s) = starts_with needle (String.◌∷◌ c s) || contains needle s
