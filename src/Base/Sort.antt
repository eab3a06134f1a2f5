-- ===== src/Base/Sort.antt =====
-- `Array.prototype.sort(cmp)`: the stable sort of the language, as an insertion sort. A comparator returns the
-- sign of its number: `gt` where the source returns a positive one.
use Prim.Native.Nat.{Ordering}
use mathlib.Core.Logic.{inl, inr}
use mathlib.Core.Bool.{Bool, true, false}
use mathlib.Core.List.{List, [], ◌∷◌, Perm}
use mathlib.Core.List.Perm
use status_pipe.Base.Tests.{if◌then◌else◌, Bool-cases}

-- `a || b` on the results of two comparators.
infixr 30 ◌or_else◌
abbrev pub ◌or_else◌ : Ordering → Ordering → Ordering
Ordering.eq or_else o = o
Ordering.lt or_else o = Ordering.lt
Ordering.gt or_else o = Ordering.gt

abbrev pub is_gt : Ordering → Bool
is_gt Ordering.gt = true
is_gt Ordering.lt = false
is_gt Ordering.eq = false

module _ {ℓ} {A : Type ℓ} (cmp : A → A → Ordering) where
  -- `x` comes from the left of the list, so it stays in front of what compares equal.
  unfoldable pub insert_sorted : A → List A → List A
  insert_sorted x [] = x ∷ []
  insert_sorted x (y ∷ ys) = if is_gt (cmp x y) then y ∷ insert_sorted x ys else x ∷ y ∷ ys

  unfoldable pub sort : List A → List A
  unfolding insert_sorted
  sort [] = []
  sort (x ∷ xs) = insert_sorted x (sort xs)

  insert_sorted-perm : (x : A) (ys : List A) → Perm (insert_sorted x ys) (x ∷ ys)
  unfolding insert_sorted
  insert_sorted-perm x [] = Perm.refl (x ∷ [])
  insert_sorted-perm x (y ∷ ys) = elim (Bool-cases (is_gt (cmp x y))) [
    | inl e ↦ rw e (Perm.trans (Perm.cons y (insert_sorted-perm x ys)) (Perm.swap x y ys))
    | inr e ↦ rw e (Perm.refl (x ∷ y ∷ ys))
  ]

  pub sort-perm : (xs : List A) → Perm (sort xs) xs
  unfolding sort
  sort-perm [] = Perm.refl []
  sort-perm (x ∷ xs) = Perm.trans (insert_sorted-perm x (sort xs)) (Perm.cons x (sort-perm xs))
