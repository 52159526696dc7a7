-- ===== src/Prelude/Text.antt =====
-- Texts as lists of codes, for the program's own work on characters.
use Prim.Native.Nat.{ℕ, ◌+◌}
use Prim.Native.Char.{code}
use Prim.Native.String.{String}
use mathlib.Core.Bool.{Bool, true, false, ◌&&◌}
use mathlib.Core.List.{List, [], ◌∷◌, map}
use governance_iot_platform.Prelude.Tests.{leb, ◌==◌, if◌then◌else◌}

abbrev pub codes : String → List ℕ
codes String.[] = []
codes (String.◌∷◌ c s) = code c ∷ codes s

-- std::tolower in the C locale
abbrev pub lower_code : ℕ → ℕ
lower_code c = if leb b'A' c && leb c b'Z' then c + 32 else c

abbrev pub lower : String → List ℕ
lower s = map lower_code (codes s)

abbrev pub codes_eq : List ℕ → List ℕ → Bool
codes_eq [] [] = true
codes_eq (a ∷ as') (b ∷ bs) = a == b && codes_eq as' bs
codes_eq _ _ = false

-- a char buffer read as a text, which ends at the first 0
unfoldable pub text_in : List ℕ → List ℕ
text_in [] = []
text_in (c ∷ cs) = let rest = text_in cs in if c == 0 then [] else c ∷ rest
