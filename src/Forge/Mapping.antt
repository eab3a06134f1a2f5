-- ===== src/Forge/Mapping.antt =====
-- Walking the answers of the forges: src/utils/json.ts, whose accessors are those of Protocol/Json.
pub mod Github
pub mod Bitbucket
use status_pipe.Base.{String, Option, none, some, List, [], ◌∷◌, map}
use status_pipe.Protocol.Json.{Engine, Decoded, bad, good, Json, Object, array, items_of, get, obj}

-- A value that may not be there; `null` and undefined are read alike.
abbrev pub Unknown : Type 0
Unknown = Option Json

abbrev pub as_arr : Unknown → List Json
as_arr (some (array xs)) = items_of xs
as_arr _ = []

-- `asArr(v).map(asObj)`
abbrev pub as_objs : Unknown → List (Option Object)
as_objs v = map (λ x. obj (some x)) (as_arr v)

abbrev pub safe_parse : Engine → String → Unknown
safe_parse js body = elim (js.json_parse body) [ bad message ↦ none | good v ↦ some v ]

unfoldable pub dig : Unknown → List String → Unknown
dig v [] = v
dig v (k ∷ ks) = elim (obj v) [ none ↦ none | some o ↦ dig (get k o) ks ]
