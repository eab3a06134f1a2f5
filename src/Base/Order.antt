-- ===== src/Base/Order.antt =====
-- Comparators with the laws that make a sort by them meaningful: numbers, integers, texts, and their lexical
-- combinations.
use Prim.Native.Nat.{ℕ, zero, suc, ◌+◌, ◌-◌, ◌/◌, ◌%◌, compare, Ordering}
use Prim.Native.Char.{code}
use Prim.Native.String.{String}
use mathlib.Core.Path.{◌≡◌, refl}
use mathlib.Core.Bool.{false}
use mathlib.Core.List.{List, [], ◌∷◌, ◌++◌}
use native.Mathlib.Omega.{arith}
use status_pipe.Base.Tests.{if◌then◌else◌, ltb}
use status_pipe.Base.Lists.{All}
use status_pipe.Base.Sort.{◌or_else◌, is_gt, insert_sorted, sort}

abbrev pub flip : Ordering → Ordering
flip Ordering.lt = Ordering.gt
flip Ordering.eq = Ordering.eq
flip Ordering.gt = Ordering.lt

-- A comparator of a total preorder.
pub record IsOrder {ℓ} {A : Type ℓ} (cmp : A → A → Ordering) : Type ℓ where
  pub swap : (x y : A) → cmp y x ≡ flip (cmp x y)
  pub trans :
      (x y z : A) → is_gt (cmp x y) ≡ false → is_gt (cmp y z) ≡ false → is_gt (cmp x z) ≡ false

pub compare-IsOrder : IsOrder compare
compare-IsOrder = record { swap = λ x y. ground arith; trans = λ x y z h k. ground arith }

module _ {ℓ κ} {A : Type ℓ} {B : Type κ} where
  abbrev pub by_key : (B → B → Ordering) → (A → B) → A → A → Ordering
  by_key cmp key x y = cmp (key x) (key y)

  pub by_key-IsOrder :
      {cmp : B → B → Ordering} (key : A → B) → IsOrder cmp → IsOrder (by_key cmp key)
  by_key-IsOrder key o = record {
    swap = λ x y. o.swap (key x) (key y);
    trans = λ x y z. o.trans (key x) (key y) (key z);
  }

module _ {ℓ} {A : Type ℓ} where
  abbrev pub lexical : (A → A → Ordering) → (A → A → Ordering) → A → A → Ordering
  lexical c d x y = c x y or_else d x y

  pub lexical-IsOrder : {c d : A → A → Ordering} → IsOrder c → IsOrder d → IsOrder (lexical c d)
  lexical-IsOrder {c} {d} o p = record {
    swap = λ x y. ground (arith, o.swap x y, p.swap x y);
    trans = λ x y z h k. ground (
      arith,
      o.trans x y z,
      p.trans x y z,
      o.swap x y,
      o.swap y z,
      o.swap x z,
      o.trans z x y,
      o.trans y z x,
    );
  }

  -- Each item is not above any later one.
  abbrev pub NoneAbove : (A → A → Ordering) → A → List A → Type 0
  NoneAbove cmp x [] = Unit {0}
  NoneAbove cmp x (y ∷ ys) = (is_gt (cmp x y) ≡ false) × NoneAbove cmp x ys

  abbrev pub IsSorted : (A → A → Ordering) → List A → Type 0
  IsSorted cmp [] = Unit {0}
  IsSorted cmp (x ∷ xs) = NoneAbove cmp x xs × IsSorted cmp xs

  module _ {cmp : A → A → Ordering} (o : IsOrder cmp) where
    NoneAbove-trans :
        (x y : A) (ys : List A) → is_gt (cmp x y) ≡ false → NoneAbove cmp y ys → NoneAbove cmp x ys
    NoneAbove-trans x y [] h n = tt
    NoneAbove-trans x y (z ∷ zs) h n = (o.trans x y z h n.0, NoneAbove-trans x y zs h n.1)

    NoneAbove-insert :
        (x y : A) (ys : List A)
        → is_gt (cmp y x) ≡ false
        → NoneAbove cmp y ys
        → NoneAbove cmp y (insert_sorted cmp x ys)
    unfolding insert_sorted
    NoneAbove-insert x y [] h n = (h, tt)
    NoneAbove-insert x y (z ∷ zs) h n = ground (arith, NoneAbove-insert x y zs h n.1)

    insert_sorted-IsSorted :
        (x : A) (ys : List A) → IsSorted cmp ys → IsSorted cmp (insert_sorted cmp x ys)
    unfolding insert_sorted
    insert_sorted-IsSorted x [] s = (tt, tt)
    insert_sorted-IsSorted x (y ∷ ys) s = ground (
      arith,
      o.swap x y,
      NoneAbove-insert x y ys,
      NoneAbove-trans x y ys,
      insert_sorted-IsSorted x ys s.1,
    )

    pub sort-IsSorted : (xs : List A) → IsSorted cmp (sort cmp xs)
    unfolding sort
    sort-IsSorted [] = tt
    sort-IsSorted (x ∷ xs) = insert_sorted-IsSorted x (sort cmp xs) (sort-IsSorted xs)

-- Each item stands to every later one in this relation.
module _ {ℓ κ} {A : Type ℓ} (R : A → A → Type κ) where
  abbrev pub IsOrdered : List A → Type κ
  IsOrdered [] = Unit
  IsOrdered (x ∷ xs) = All (R x) xs × IsOrdered xs

  module _ (cmp : A → A → Ordering) (means : (x y : A) → is_gt (cmp x y) ≡ false → R x y) where
    NoneAbove-All : (x : A) (ys : List A) → NoneAbove cmp x ys → All (R x) ys
    NoneAbove-All x [] h = tt
    NoneAbove-All x (y ∷ ys) h = (means x y h.0, NoneAbove-All x ys h.1)

    pub IsSorted-IsOrdered : (xs : List A) → IsSorted cmp xs → IsOrdered xs
    IsSorted-IsOrdered [] h = tt
    IsSorted-IsOrdered (x ∷ xs) h = (NoneAbove-All x xs h.0, IsSorted-IsOrdered xs h.1)

module _ {ℓ κ} {A : Type ℓ} (P : A → Type κ) (cmp : A → A → Ordering) where
  All-insert_sorted : (x : A) (ys : List A) → P x → All P ys → All P (insert_sorted cmp x ys)
  unfolding insert_sorted
  All-insert_sorted x [] p h = (p, tt)
  All-insert_sorted x (y ∷ ys) p h = ground (arith, All-insert_sorted x ys p h.1)

  pub All-sort : (xs : List A) → All P xs → All P (sort cmp xs)
  unfolding sort
  All-sort [] h = tt
  All-sort (x ∷ xs) h = All-insert_sorted x (sort cmp xs) h.0 (All-sort xs h.1)

-- Texts compare by their UTF-16 code units.
abbrev pub utf16 : ℕ → List ℕ
utf16 c =
    if ltb c 0x10000
    then c ∷ []
    else (0xd800 + (c - 0x10000) / 1024) ∷ (0xdc00 + (c - 0x10000) % 1024) ∷ []

abbrev pub code_units : String → List ℕ
code_units String.[] = []
code_units (String.◌∷◌ c s) = utf16 (code c) ++ code_units s

unfoldable pub compare_units : List ℕ → List ℕ → Ordering
compare_units [] [] = Ordering.eq
compare_units [] (y ∷ ys) = Ordering.lt
compare_units (x ∷ xs) [] = Ordering.gt
compare_units (x ∷ xs) (y ∷ ys) = compare x y or_else compare_units xs ys

units_swap : (xs ys : List ℕ) → compare_units ys xs ≡ flip (compare_units xs ys)
unfolding compare_units
units_swap [] [] = refl
units_swap [] (y ∷ ys) = refl
units_swap (x ∷ xs) [] = refl
units_swap (x ∷ xs) (y ∷ ys) = ground (arith, units_swap xs ys)

units_trans :
    (xs ys zs : List ℕ)
    → is_gt (compare_units xs ys) ≡ false
    → is_gt (compare_units ys zs) ≡ false
    → is_gt (compare_units xs zs) ≡ false
unfolding compare_units
units_trans [] ys [] h k = refl
units_trans [] ys (z ∷ zs) h k = refl
units_trans (x ∷ xs) [] zs h k = cc
units_trans (x ∷ xs) (y ∷ ys) [] h k = cc
units_trans (x ∷ xs) (y ∷ ys) (z ∷ zs) h k = ground (arith, units_trans xs ys zs)

-- `byCodepoint` of src/utils/ordering.ts: `<` and `>` on texts.
unfoldable pub by_codepoint : String → String → Ordering
by_codepoint a b = compare_units (code_units a) (code_units b)

pub by_codepoint-IsOrder : IsOrder by_codepoint
unfolding by_codepoint
by_codepoint-IsOrder = record {
  swap = λ x y. units_swap (code_units x) (code_units y);
  trans = λ x y z. units_trans (code_units x) (code_units y) (code_units z);
}

-- Integers, for keys that are negated.
pub data ℤ : Type 0 where
  pos : ℕ → ℤ
  negsuc : ℕ → ℤ

abbrev pub negate : ℕ → ℤ
negate zero = pos 0
negate (suc n) = negsuc n

unfoldable pub compare_ℤ : ℤ → ℤ → Ordering
compare_ℤ (pos a) (pos b) = compare a b
compare_ℤ (pos a) (negsuc b) = Ordering.gt
compare_ℤ (negsuc a) (pos b) = Ordering.lt
compare_ℤ (negsuc a) (negsuc b) = compare b a

compare_ℤ_swap : (x y : ℤ) → compare_ℤ y x ≡ flip (compare_ℤ x y)
unfolding compare_ℤ
compare_ℤ_swap (pos a) (pos b) = ground arith
compare_ℤ_swap _ _ = ground arith

compare_ℤ_trans :
    (x y z : ℤ)
    → is_gt (compare_ℤ x y) ≡ false
    → is_gt (compare_ℤ y z) ≡ false
    → is_gt (compare_ℤ x z) ≡ false
unfolding compare_ℤ
compare_ℤ_trans (pos a) (pos b) (pos c) h k = ground arith
compare_ℤ_trans _ _ _ h k = ground arith

pub compare_ℤ-IsOrder : IsOrder compare_ℤ
compare_ℤ-IsOrder = record { swap = compare_ℤ_swap; trans = compare_ℤ_trans }
