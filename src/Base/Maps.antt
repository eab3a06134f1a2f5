-- ===== src/Base/Maps.antt =====
-- `Map<string, V>`: entries in the order of their first insertion; `set` on a present key keeps its place.
use Prim.Native.String.{String}
use mathlib.Core.Path.{◌≡◌, refl, subst}
use mathlib.Core.Logic.{inl, inr}
use mathlib.Core.Bool.{Bool}
use mathlib.Core.Option.{Option, none, some}
use mathlib.Core.List.{List, [], ◌∷◌, map}
use native.Mathlib.Omega.{arith}
use status_pipe.Base.Tests.{if◌then◌else◌, ◌==◌, ==_iff, ==_refl, is_some, if-intro, Bool-cases}
use status_pipe.Base.Lists.{All}

abbrev pub Dict {ℓ} : Type ℓ → Type ℓ
Dict V = List (String × V)

module _ {ℓ} {V : Type ℓ} where
  unfoldable pub lookup : String → Dict V → Option V
  lookup k [] = none
  lookup k ((j, v) ∷ d) = if j == k then some v else lookup k d

  unfoldable pub insert : String → V → Dict V → Dict V
  insert k v [] = (k, v) ∷ []
  insert k v ((j, w) ∷ d) = if j == k then (j, v) ∷ d else (j, w) ∷ insert k v d

  unfoldable pub remove : String → Dict V → Dict V
  remove k [] = []
  remove k ((j, w) ∷ d) = if j == k then remove k d else (j, w) ∷ remove k d

  abbrev pub keys : Dict V → List String
  keys d = map (λ e. e.0) d

  -- `map.has(k)`
  abbrev pub has : String → Dict V → Bool
  has k d = is_some (lookup k d)

  pub lookup-insert :
      (k j : String) (v : V) (d : Dict V)
      → lookup j (insert k v d) ≡ (if k == j then some v else lookup j d)
  unfolding lookup insert
  lookup-insert k j v [] = refl
  lookup-insert k j v ((i, w) ∷ d) =
      ground (arith, ==_iff k j, ==_iff i k, ==_iff i j, lookup-insert k j v d)

  pub lookup-remove :
      (k j : String) (d : Dict V) → lookup j (remove k d) ≡ (if k == j then none else lookup j d)
  unfolding lookup remove
  lookup-remove k j [] = ground arith
  lookup-remove k j ((i, w) ∷ d) =
      ground (arith, ==_iff k j, ==_iff i k, ==_iff i j, lookup-remove k j d)

  pub lookup-insert_self : (k : String) (v : V) (d : Dict V) → lookup k (insert k v d) ≡ some v
  lookup-insert_self k v d = ground (arith, lookup-insert k k v d, ==_refl k)

-- A property of every value.
module _ {ℓ κ} {V : Type ℓ} (P : V → Type κ) where
  abbrev pub AllValues : Dict V → Type κ
  AllValues d = All (λ e. P e.1) d

  pub AllValues-insert :
      (k : String) (v : V) (d : Dict V) → P v → AllValues d → AllValues (insert k v d)
  unfolding insert
  AllValues-insert k v [] p h = (p, h)
  AllValues-insert k v (e ∷ d) p h =
      if-intro AllValues (e.0 == k) (λ _. (p, h.1)) (λ _. (h.0, AllValues-insert k v d p h.1))

  pub AllValues-lookup : (k : String) (v : V) (d : Dict V) → AllValues d → lookup k d ≡ some v → P v
  unfolding lookup
  AllValues-lookup k v [] h e = absurd (cc e)
  AllValues-lookup k v ((j, w) ∷ d) h e = elim (Bool-cases (j == k)) [
    | inl same ↦ let own : some w ≡ some v = rw same at e in subst P (cc own) h.0
    | inr other ↦ AllValues-lookup k v d h.1 (rw other at e)
  ]

  pub AllValues-map :
      (f : V → V)
      → ((v : V) → P v → P (f v))
      → (d : Dict V) → AllValues d
      → AllValues (map (λ e. (e.0, f e.1)) d)
  AllValues-map f k [] h = h
  AllValues-map f k (e ∷ d) h = (k e.1 h.0, AllValues-map f k d h.1)
