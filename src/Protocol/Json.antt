-- ===== src/Protocol/Json.antt =====
-- JSON values and the accessors that coerce them: the head of src/protocol/parse.ts. `unknown` is `Option Json`, where
-- `none` is undefined. A number is a natural number, or one whose literal overflows to an infinity. The members of an
-- object stand in the order of `Object.entries`.
pub mod Writing
use status_pipe.Base.{
  ℕ, String, Bool, true, false, Option, none, some, List, [], ◌∷◌, Dict, lookup, map_some, find,
  ◌==◌,
}

mutual
  pub data Json : Type 0 where
    null : Json
    bool : Bool → Json
    number : ℕ → Json
    infinite : Json
    text : String → Json
    array : Items → Json
    object : Members → Json

  pub data Items : Type 0 where
    no_items : Items
    item : Json → Items → Items

  pub data Members : Type 0 where
    no_members : Members
    member : String → Json → Members → Members

-- `Record<string, unknown>`
abbrev pub Object : Type 0
Object = Dict Json

-- What `JSON.parse` does: it throws with a message, or gives a value.
pub data Decoded : Type 0 where
  bad : (message : String) → Decoded
  good : Json → Decoded

pub record Engine : Type 0 where
  -- `JSON.parse`
  pub json_parse : String → Decoded
  -- `JSON.stringify(value, null, 2) + '\n'`
  pub stringify : Json → String
  -- `String(value)`
  pub to_text : Option Json → String

abbrev pub items_of : Items → List Json
items_of no_items = []
items_of (item v xs) = v ∷ items_of xs

abbrev pub members_of : Members → Object
members_of no_members = []
members_of (member k v fs) = (k, v) ∷ members_of fs

-- `o.k`
abbrev pub get : String → Object → Option Json
get k o = lookup k o

abbrev pub str : Option Json → Option String
str (some (text s)) = some s
str _ = none

abbrev pub num : Option Json → Option ℕ
num (some (number n)) = some n
num _ = none

abbrev text_of : Json → Option String
text_of v = str (some v)

abbrev pub str_array : Option Json → List String
str_array (some (array xs)) = map_some text_of (items_of xs)
str_array _ = []

abbrev pub obj : Option Json → Option Object
obj (some (object fs)) = some (members_of fs)
obj _ = none

abbrev object_of : Json → Option Object
object_of v = obj (some v)

abbrev pub obj_array : Option Json → List Object
obj_array (some (array xs)) = map_some object_of (items_of xs)
obj_array _ = []

-- The value of this name. `names` and `all` stand for the set of allowed texts.
abbrev pub named {ℓ} : {A : Type ℓ} → (A → String) → List A → String → Option A
named names all s = find (λ a. names a == s) all

abbrev pub named_in {ℓ} : {A : Type ℓ} → (A → String) → List A → Option String → Option A
named_in names all none = none
named_in names all (some s) = named names all s

abbrev pub is_true : Option Json → Bool
is_true (some (bool true)) = true
is_true _ = false

infixl 5 ◌>>=◌ ◌>>◌
abbrev pub ◌>>=◌ {ℓ κ} : {A : Type ℓ} {B : Type κ} → Option A → (A → Option B) → Option B
none >>= f = none
some a >>= f = f a

abbrev pub ◌>>◌ {ℓ} : {B : Type ℓ} → Option (Unit {0}) → Option B → Option B
m >> k = m >>= λ _. k

-- `if (!test) return null`
abbrev pub guard : Bool → Option (Unit {0})
guard true = some tt
guard false = none
