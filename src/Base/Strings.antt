-- ===== src/Base/Strings.antt =====
-- Operations on texts that the source calls: trimming, splitting and joining. Texts are code points.
use Prim.Native.Nat.{ℕ}
use Prim.Native.Char.{Char, code}
use Prim.Native.String.{String}
use mathlib.Core.Bool.{Bool, true, false, ◌&&◌, ◌||◌}
use mathlib.Core.List.{List, [], ◌∷◌, reverse}
use status_pipe.Base.Tests.{leb, eqb, if◌then◌else◌}
use status_pipe.Base.Lists.{any, every}
use status_pipe.Base.Text.{◌^^◌, codes, begins}

-- The white space and the line ends that `trim` and `\s` read.
abbrev pub is_space : ℕ → Bool
is_space c =
    (leb 9 c && leb c 13)
    || (leb 8192 c && leb c 8202)
    || any (λ s. eqb s c) (32 ∷ 160 ∷ 5760 ∷ 8232 ∷ 8233 ∷ 8239 ∷ 8287 ∷ 12288 ∷ 65279 ∷ [])

abbrev pub trim_start : String → String
trim_start String.[] = ""
trim_start (String.◌∷◌ c s) =
    let rest = trim_start s in if is_space (code c) then rest else String.◌∷◌ c s

abbrev pub is_empty : String → Bool
is_empty String.[] = true
is_empty (String.◌∷◌ c s) = false

abbrev pub trim_end : String → String
trim_end String.[] = ""
trim_end (String.◌∷◌ c s) =
    let rest = trim_end s in if is_empty rest && is_space (code c) then "" else String.◌∷◌ c rest

abbrev pub trim : String → String
trim s = trim_end (trim_start s)

-- `ss.join(separator)`
abbrev pub join : String → List String → String
join separator [] = ""
join separator (s ∷ []) = s
join separator (s ∷ t ∷ ss) = s ^^ separator ^^ join separator (t ∷ ss)

abbrev joined_first : Char → List String → List String
joined_first c [] = String.◌∷◌ c "" ∷ []
joined_first c (s ∷ ss) = String.◌∷◌ c s ∷ ss

-- `s.split(c)` at a text of one character.
abbrev pub split : ℕ → String → List String
split at String.[] = "" ∷ []
split at (String.◌∷◌ c s) =
    let rest = split at s in if eqb (code c) at then "" ∷ rest else joined_first c rest

-- `t.endsWith(p)`
unfoldable pub ends_with : String → String → Bool
unfolding begins
ends_with t p = begins (reverse (codes p)) (reverse (codes t))

abbrev is_digit : ℕ → Bool
is_digit c = leb b'0' c && leb c b'9'

-- `/^\d+$/.test(s)`
abbrev pub is_decimal : String → Bool
is_decimal String.[] = false
is_decimal (String.◌∷◌ c s) = every is_digit (codes (String.◌∷◌ c s))
