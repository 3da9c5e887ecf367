-- ===== src/Base/Text.antt =====
-- `str.split` by one separator, on names such as `domain.entity.attr`.
use Prim.Native.Char.{Char, code}
use Prim.Native.Nat.{ℕ, suc, ◌+◌}
use Prim.Native.String.{String, ◌++◌}
use pyscript.Base.Keys.{◌==◌, nat_key}
use pyscript.Base.Tests.{if◌then◌else◌}
use pyscript.Base.Lists.{length, is_empty}
use mathlib.Core.Path.{◌≡◌, refl}
use mathlib.Core.Bool.{Bool, true, false, ◌&&◌}
use mathlib.Core.List.{List, [], ◌∷◌}
use native.Mathlib.Omega.{arith}

abbrev onto_first : Char → List String → List String
onto_first c [] = String.◌∷◌ c String.[] ∷ []
onto_first c (p ∷ ps) = String.◌∷◌ c p ∷ ps

length-onto_first :
    (c : Char) (ps : List String)
    → length (onto_first c ps) ≡ length (ps) + (if is_empty ps then 1 else 0)
length-onto_first c [] = omega arith
length-onto_first c (p ∷ ps) = omega arith

-- `s.split(".")`
unfoldable pub split : String → List String
split String.[] = String.[] ∷ []
split (String.◌∷◌ c s) =
    let rest = split s in if code c == b'.' then String.[] ∷ rest else onto_first c rest

-- `s.count(".")`
unfoldable pub dots : String → ℕ
dots String.[] = 0
dots (String.◌∷◌ c s) = if code c == b'.' then suc (dots s) else dots s

-- `s.startswith(prefix)`
unfoldable pub starts_with : String → String → Bool
starts_with String.[] s = true
starts_with (String.◌∷◌ c p) String.[] = false
starts_with (String.◌∷◌ c p) (String.◌∷◌ d s) = code c == code d && starts_with p s

-- `f"{a}.{b}"`
abbrev pub dotted : String → String → String
dotted a b = a ++ "." ++ b

split_test : split "light.kitchen.brightness" ≡ "light" ∷ "kitchen" ∷ "brightness" ∷ []
unfolding split
split_test = refl

-- `split` cuts at every dot.
pub length-split : (s : String) → length (split s) ≡ dots s + 1
unfolding split dots
length-split String.[] = omega arith
length-split (String.◌∷◌ c s) = ground (arith, length-split s, length-onto_first c (split s))
