-- ===== src/Protocol/Json/Writing.antt =====
-- Values as the objects that are written, and how the accessors read them.
use status_pipe.Base.{
  ℕ, String, ◌≡◌, refl, ap, Bool, true, false, Option, none, some, List, [], ◌∷◌, map, map_some,
  All,
}
use status_pipe.Protocol.Json.{
  Json, Items, Members, Object, null, number, text, array, object, no_items, item, no_members,
  member, members_of, str, num, str_array, obj_array, is_true, bool,
}

abbrev pub to_items : List Json → Items
to_items [] = no_items
to_items (v ∷ vs) = item v (to_items vs)

abbrev pub to_members : Object → Members
to_members [] = no_members
to_members (e ∷ es) = member e.0 e.1 (to_members es)

abbrev pub text_or_null : Option String → Json
text_or_null none = null
text_or_null (some s) = text s

abbrev pub number_or_null : Option ℕ → Json
number_or_null none = null
number_or_null (some n) = number n

abbrev pub texts : List String → Json
texts ss = array (to_items (map text ss))

abbrev pub written : Object → Json
written o = object (to_members o)

abbrev pub objects : List Object → Json
objects os = array (to_items (map written os))

pub members_of-to_members : (o : Object) → members_of (to_members o) ≡ o
members_of-to_members [] = refl
members_of-to_members (e ∷ es) = ap (◌∷◌ e) (members_of-to_members es)

pub str-text_or_null : (o : Option String) → str (some (text_or_null o)) ≡ o
str-text_or_null none = refl
str-text_or_null (some s) = refl

pub num-number_or_null : (o : Option ℕ) → num (some (number_or_null o)) ≡ o
num-number_or_null none = refl
num-number_or_null (some n) = refl

pub str_array-texts : (ss : List String) → str_array (some (texts ss)) ≡ ss
str_array-texts [] = refl
str_array-texts (s ∷ ss) = ap (◌∷◌ s) (str_array-texts ss)

pub obj_array-objects : (os : List Object) → obj_array (some (objects os)) ≡ os
obj_array-objects [] = refl
obj_array-objects (o ∷ os) = rw (members_of-to_members o, obj_array-objects os)

-- Reading a list of written objects reads each.
module _ {ℓ} {A : Type ℓ} (read : Object → Option A) (write : A → Object) where
  abbrev pub ReadsBack : A → Type ℓ
  ReadsBack a = read (write a) ≡ some a

  pub map_some-map : (xs : List A) → All ReadsBack xs → map_some read (map write xs) ≡ xs
  map_some-map [] h = refl
  map_some-map (x ∷ xs) h = rw (h.0, map_some-map xs h.1)

pub is_true-bool : (b : Bool) → is_true (some (bool b)) ≡ b
is_true-bool true = refl
is_true-bool false = refl
