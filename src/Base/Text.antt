-- ===== src/Base/Text.antt =====
-- Searches in texts, over code points.
use Prim.Native.Nat.{ℕ, ◌+◌}
use Prim.Native.Char.{code}
use Prim.Native.String.{String}
use Prim.Native.String
use mathlib.Core.Path.{◌≡◌, refl, ap, ◌∙◌}
use mathlib.Core.Bool.{Bool, true, false, ◌&&◌, ◌||◌}
use mathlib.Core.List.{List, [], ◌∷◌, ◌++◌, map}
use native.Mathlib.Omega.{arith}
use text.Mathlib.TextLemmas.{cons-append, nil-append}
use status_pipe.Base.Tests.{leb, eqb, if◌then◌else◌}

infixr 65 ◌^^◌
abbrev pub ◌^^◌ : String → String → String
s ^^ t = String.◌++◌ s t

abbrev pub codes : String → List ℕ
codes String.[] = []
codes (String.◌∷◌ c s) = code c ∷ codes s

pub codes-append : (s t : String) → codes (s ^^ t) ≡ codes s ++ codes t
codes-append String.[] t = ap codes (nil-append t)
codes-append (String.◌∷◌ c s) t =
    ap codes (cons-append c s t) ∙ ap (◌∷◌ (code c)) (codes-append s t)

unfoldable pub begins : List ℕ → List ℕ → Bool
begins [] t = true
begins (x ∷ p) [] = false
begins (x ∷ p) (y ∷ t) = eqb x y && begins p t

unfoldable pub occurs : List ℕ → List ℕ → Bool
unfolding begins
occurs p [] = begins p []
occurs p (y ∷ t) = begins p (y ∷ t) || occurs p t

-- The letters A to Z in lower case, as a regular expression with the flag `i` reads them.
abbrev pub fold_case : ℕ → ℕ
fold_case c = if leb b'A' c && leb c b'Z' then c + 32 else c

-- `t.includes(p)`
unfoldable pub includes : String → String → Bool
unfolding occurs
includes t p = occurs (codes p) (codes t)

-- `/p/i.test(t)` for a `p` of lower-case letters.
unfoldable pub includes_folded : String → String → Bool
unfolding occurs
includes_folded t p = occurs (codes p) (map fold_case (codes t))

-- `t.startsWith(p)`
unfoldable pub starts_with : String → String → Bool
unfolding begins
starts_with t p = begins (codes p) (codes t)

begins-append : (p t : List ℕ) → begins p (p ++ t) ≡ true
unfolding begins
begins-append [] t = refl
begins-append (x ∷ p) t = ground (arith, begins-append p t)

begins→occurs : (p t : List ℕ) → begins p t ≡ true → occurs p t ≡ true
unfolding occurs
begins→occurs p [] h = h
begins→occurs p (y ∷ t) h = rw h

occurs-prepend : (p s t : List ℕ) → occurs p t ≡ true → occurs p (s ++ t) ≡ true
unfolding occurs
occurs-prepend p [] t h = h
occurs-prepend p (x ∷ s) t h = ground (arith, occurs-prepend p s t h)

-- A text is found inside any text that is built around it.
pub includes_middle : (s p t : String) → includes (s ^^ p ^^ t) p ≡ true
unfolding includes
includes_middle s p t =
    rw (codes-append s (p ^^ t), codes-append p t)
      (occurs-prepend (codes p) (codes s) _
        (begins→occurs (codes p) _ (begins-append (codes p) (codes t))))
